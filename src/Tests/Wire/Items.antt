-- ===== src/Tests/Wire/Items.antt =====
-- Levels, updates and texts as bytes, for the crates of the tests.
use orderbook_replay_lab.Base.{
  ℕ, zero, suc, ◌+◌, ◌*◌, ◌<◌, ◌≡◌, refl, List, [], ◌∷◌, arith, if◌then◌else◌, length, nat_eq,
  text_eq, All,
}
use orderbook_replay_lab.Core.Types.{Side, is_bid, Price, Qty, LevelUpdate}
use orderbook_replay_lab.Codec.Defs.{Bytes}
use orderbook_replay_lab.Cli.Gen.Fits.{LevelFits, UpdateFits}
use orderbook_replay_lab.Tests.Wire.Numbers.{
  put_nat, get_nat, get_nat-put_nat, put_int, get_int, get_int-put_int, length-put_int, AreBytes,
  put_nat-AreBytes, put_int-AreBytes,
}

abbrev pub put_levels : List (Price × Qty) → Bytes → Bytes
put_levels [] bs = bs
put_levels ((p, q) ∷ levels) bs = put_int p (put_int q (put_levels levels bs))

abbrev pub get_levels : ℕ → Bytes → List (Price × Qty) × Bytes
get_levels zero bs = ([], bs)
get_levels (suc n) bs =
    let (p, bs1) = get_int bs in
    let (q, bs2) = get_int bs1 in let (levels, bs3) = get_levels n bs2 in ((p, q) ∷ levels, bs3)

pub get_levels-put_levels :
    (levels : List (Price × Qty)) (bs : Bytes)
    → get_levels (length levels) (put_levels levels bs) ≡ (levels, bs)
get_levels-put_levels [] bs = refl
get_levels-put_levels ((p, q) ∷ levels) bs =
    rw
      (
        get_int-put_int p (put_int q (put_levels levels bs)),
        get_int-put_int q (put_levels levels bs),
        get_levels-put_levels levels bs,
      )
      refl

pub length-put_levels :
    (levels : List (Price × Qty)) (bs : Bytes)
    → All LevelFits levels
    → length (put_levels levels bs) ≡ 20 * length levels + length bs
length-put_levels [] bs h = omega arith
length-put_levels ((p, q) ∷ levels) bs ((p_fits, q_fits), h) = omega (
  arith,
  length-put_int p (put_int q (put_levels levels bs)) p_fits,
  length-put_int q (put_levels levels bs) q_fits,
  length-put_levels levels bs h,
)

-- A bid's update is a level, and an ask's a level behind it.
abbrev pub put_updates : List LevelUpdate → Bytes → Bytes
put_updates [] bs = bs
put_updates (u ∷ us) bs =
    (if is_bid u.side then 0 else 1) ∷ put_int u.price (put_int u.qty (put_updates us bs))

abbrev pub side_of : ℕ → Side
side_of zero = Side.bid
side_of (suc n) = Side.ask

abbrev pub get_update : ℕ → Bytes → LevelUpdate × Bytes
get_update s bs =
    let (p, bs1) = get_int bs in
    let (q, bs2) = get_int bs1 in (record { side = side_of s; price = p; qty = q }, bs2)

abbrev pub get_updates : ℕ → Bytes → List LevelUpdate × Bytes
get_updates zero bs = ([], bs)
get_updates (suc n) [] = ([], [])
get_updates (suc n) (s ∷ bs) =
    let (u, bs') = get_update s bs in let (us, bs'') = get_updates n bs' in (u ∷ us, bs'')

pub side_back : (s : Side) → side_of (if is_bid s then 0 else 1) ≡ s
side_back Side.bid = refl
side_back Side.ask = refl

pub get_updates-put_updates :
    (us : List LevelUpdate) (bs : Bytes) → get_updates (length us) (put_updates us bs) ≡ (us, bs)
get_updates-put_updates [] bs = refl
get_updates-put_updates (u ∷ us) bs =
    rw
      (
        side_back u.side,
        get_int-put_int u.price (put_int u.qty (put_updates us bs)),
        get_int-put_int u.qty (put_updates us bs),
        get_updates-put_updates us bs,
      )
      refl

pub length-put_updates :
    (us : List LevelUpdate) (bs : Bytes)
    → All UpdateFits us
    → length (put_updates us bs) ≡ 21 * length us + length bs
length-put_updates [] bs h = omega arith
length-put_updates (u ∷ us) bs ((p_fits, q_fits), h) = omega (
  arith,
  length-put_int u.price (put_int u.qty (put_updates us bs)) p_fits,
  length-put_int u.qty (put_updates us bs) q_fits,
  length-put_updates us bs h,
)

abbrev pub put_codes : List ℕ → Bytes
put_codes [] = []
put_codes (c ∷ cs) = put_nat c (put_codes cs)

abbrev pub get_codes : ℕ → Bytes → List ℕ
get_codes zero bs = []
get_codes (suc n) bs = let (c, bs') = get_nat bs in c ∷ get_codes n bs'

pub get_codes-put_codes : (cs : List ℕ) → get_codes (length cs) (put_codes cs) ≡ cs
get_codes-put_codes [] = refl
get_codes-put_codes (c ∷ cs) = rw (get_nat-put_nat c (put_codes cs), get_codes-put_codes cs) refl

pub put_levels-AreBytes :
    (levels : List (Price × Qty)) (bs : Bytes) → AreBytes bs → AreBytes (put_levels levels bs)
put_levels-AreBytes [] bs h = h
put_levels-AreBytes ((p, q) ∷ levels) bs h =
    let rest = put_levels levels bs in
    put_int-AreBytes p (put_int q rest) (put_int-AreBytes q rest (put_levels-AreBytes levels bs h))

pub side_byte : (s : Side) → (if is_bid s then 0 else 1) < 256
side_byte Side.bid = omega arith
side_byte Side.ask = omega arith

pub put_updates-AreBytes :
    (us : List LevelUpdate) (bs : Bytes) → AreBytes bs → AreBytes (put_updates us bs)
put_updates-AreBytes [] bs h = h
put_updates-AreBytes (u ∷ us) bs h =
    let rest = put_updates us bs in
    (
      side_byte u.side,
      put_int-AreBytes u.price (put_int u.qty rest)
          (put_int-AreBytes u.qty rest (put_updates-AreBytes us bs h)),
    )

pub put_codes-AreBytes : (cs : List ℕ) → AreBytes (put_codes cs)
put_codes-AreBytes [] = tt
put_codes-AreBytes (c ∷ cs) = put_nat-AreBytes c (put_codes cs) (put_codes-AreBytes cs)
