-- ===== src/Cli/Gen/Draws.antt =====
-- cli/src/main.rs: the events that `run_gen` makes of random numbers in their ranges.
use orderbook_replay_lab.Base.{
  ℕ, zero, suc, ◌+◌, ◌≤◌, ◌<◌, ◌≡◌, refl, ap, ◌∙◌, Bool, true, false, [], ◌∷◌, ◌++◌, arith, length,
  length-append, ℤ, pos, negsuc, pos_part, ◌≤ℤ◌, ◌<ℤ◌, FitsI64, half_i64, max_ℤ, All, add_i64,
  sub_i64, nat_eq, text_eq,
}
use orderbook_replay_lab.Base.Result.{ok}
use orderbook_replay_lab.Core.Types.{Side, Price, Qty, LevelUpdate}
use orderbook_replay_lab.Base.{max_ℤ}
use orderbook_replay_lab.Cli.Gen.Defs.{
  Rng, Sides, gen_levels, gen_side, gen_price, gen_qty, gen_update,
}
use orderbook_replay_lab.Cli.Gen.Fits.{
  sum_exact, max_one, new_price-ok, new_qty-ok, add_i64_fits, sub_i64_fits, max_one_fits,
  small_fits, LevelFits, UpdateFits, All-append, below_mid,
}

-- A drawn number is in the range that was asked for.
pub record Draws (G : Rng) : Type 0 where
  pub at_least : (low high : ℤ) (rng : G.State) → low ≤ℤ high → low ≤ℤ (G.gen_range low high rng).0
  pub at_most : (low high : ℤ) (rng : G.State) → low ≤ℤ high → (G.gen_range low high rng).0 ≤ℤ high

-- A price and a quantity that the generator may write.
abbrev pub IsPriced : Price → Type 0
IsPriced p = pos 1 ≤ℤ p

abbrev pub IsSmallQty : Qty → Type 0
IsSmallQty q = (pos 0 ≤ℤ q) × (q ≤ℤ pos 10)

-- A bid is not above the middle price, unless that is 1, and an ask is above it.
abbrev pub IsPlaced : ℤ → Side → Price → Type 0
IsPlaced mid Side.bid p = p ≤ℤ mid
IsPlaced mid Side.ask p = mid <ℤ p

module _ (G : Rng) (draws : Draws G) where
  gen_qty-IsSmallQty : (remove : Bool) (rng : G.State) → IsSmallQty (gen_qty G remove rng).0
  gen_qty-IsSmallQty true rng = (omega arith, omega arith)
  gen_qty-IsSmallQty false rng = (
    omega (arith, draws.at_least (pos 1) (pos 10) rng (omega arith)),
    draws.at_most (pos 1) (pos 10) rng (omega arith),
  )

  gen_price-fits :
      (side : Side) (mid offset : ℤ)
      → pos 1 ≤ℤ mid
      → pos 1 ≤ℤ offset
      → offset ≤ℤ pos 5
      → pos_part mid + 5 < half_i64
      → IsPriced (gen_price G side mid offset) × IsPlaced mid side (gen_price G side mid offset)
  gen_price-fits Side.bid (pos m) (pos o) one low high room =
      (max_one (sub_i64 (pos m) (pos o)), below_mid m o (omega arith) (omega arith) (omega arith))
  gen_price-fits Side.ask (pos m) (pos o) one low high room =
      let e = sum_exact (pos m) (pos o) one (omega arith) (omega arith) in
      rw e (omega arith, omega arith)
  gen_price-fits side (negsuc m) offset one low high room = absurd (omega arith)
  gen_price-fits side mid (negsuc o) one low high room = absurd (omega arith)

  -- What one round gives: the update, the middle price and the random numbers afterwards.
  abbrev pub Updates : ℤ → G.State → LevelUpdate → ℤ → G.State → Type 0
  Updates mid rng u mid' rng' =
      (gen_update G mid rng ≡ ok (u, mid', rng'))
      × (pos 1 ≤ℤ mid')
      × (pos_part mid' ≤ pos_part mid + 1)
      × IsPriced u.price
      × IsPlaced mid' u.side u.price
      × IsSmallQty u.qty
      × UpdateFits u

  drift_mid :
      (mid drift : ℤ)
      → pos 1 ≤ℤ mid
      → negsuc 0 ≤ℤ drift
      → drift ≤ℤ pos 1
      → pos_part mid + 1 < half_i64
      → let mid' = max_ℤ (add_i64 mid drift) (pos 1) in
        (pos 1 ≤ℤ mid') × (pos_part mid' ≤ pos_part mid + 1)
  drift_mid mid (pos d) one low high room = (
    max_one (add_i64 mid (pos d)),
    rw (sum_exact mid (pos d) one (omega arith) (omega arith)) (ground (arith, high, one)),
  )
  drift_mid mid (negsuc d) one low high room = (
    max_one (add_i64 mid (negsuc d)),
    rw (sum_exact mid (negsuc d) one (omega arith) (omega arith)) (ground (arith, one)),
  )

  gen_price_fits : (side : Side) (mid offset : ℤ) → FitsI64 (gen_price G side mid offset)
  gen_price_fits Side.bid mid offset = max_one_fits (sub_i64 mid offset) (sub_i64_fits mid offset)
  gen_price_fits Side.ask mid offset = add_i64_fits mid offset

  pub gen_update-Updates :
      (mid : ℤ) (rng : G.State)
      → pos 1 ≤ℤ mid
      → pos_part mid + 6 < half_i64
      → (u : LevelUpdate) × (mid' : ℤ) × (rng' : G.State) × Updates mid rng u mid' rng'
  unfolding gen_update
  gen_update-Updates mid rng one room =
      let (drift, rng1) = G.gen_range (negsuc 0) (pos 1) rng in
      let mid' = max_ℤ (add_i64 mid drift) (pos 1) in
      let (bid, rng2) = G.gen_bool 5 rng1 in
      let side = gen_side G bid in
      let (offset, rng3) = G.gen_range (pos 1) (pos 5) rng2 in
      let (remove, rng4) = G.gen_bool 1 rng3 in
      let (qty, rng5) = gen_qty G remove rng4 in
      let price = gen_price G side mid' offset in
      let (one', near) =
        drift_mid mid drift one (draws.at_least (negsuc 0) (pos 1) rng (omega arith))
          (draws.at_most (negsuc 0) (pos 1) rng (omega arith)) (omega arith) in
      let (priced, placed) =
        gen_price-fits side mid' offset one' (draws.at_least (pos 1) (pos 5) rng2 (omega arith))
          (draws.at_most (pos 1) (pos 5) rng2 (omega arith)) (omega (arith, near)) in
      let small = gen_qty-IsSmallQty remove rng4 in
      (
        record { side = side; price = price; qty = qty },
        mid',
        rng5,
        (
          rw (new_price-ok price (omega (arith, priced)), new_qty-ok qty small.0) refl,
          one',
          near,
          priced,
          placed,
          small,
          (gen_price_fits side mid' offset, small_fits qty small.0 small.1),
        ),
      )

  -- Some levels on each side, whose prices and quantities are numbers of the machine.
  abbrev pub AreLevels : ℕ → Sides → Type 0
  AreLevels n (bids, asks) =
      (length bids ≡ n) × (length asks ≡ n) × All LevelFits bids × All LevelFits asks

  drawn_fits : (rng : G.State) → FitsI64 (G.gen_range (pos 1) (pos 10) rng).0
  drawn_fits rng =
      let low = draws.at_least (pos 1) (pos 10) rng (omega arith) in
      small_fits (G.gen_range (pos 1) (pos 10) rng).0 (omega (arith, low))
        (draws.at_most (pos 1) (pos 10) rng (omega arith))

  pub gen_levels-AreLevels :
      (levels n : ℕ) (level mid : ℤ) (rng : G.State) (sides : Sides)
      → pos 1 ≤ℤ mid
      → pos 1 ≤ℤ level
      → pos_part mid + pos_part level + levels < half_i64
      → AreLevels n sides
      → (sides' : Sides) × (rng' : G.State) × (gen_levels G levels level mid rng sides
          ≡ ok (sides', rng'))
        × AreLevels (n + levels) sides'
  unfolding gen_levels
  gen_levels-AreLevels zero n level mid rng (bids, asks) one low room (b, a, bids_fit, asks_fit) =
      ((bids, asks), rng, refl, (omega (arith, b), omega (arith, a), bids_fit, asks_fit))
  gen_levels-AreLevels (suc levels) n (negsuc l) mid rng sides one low room h = absurd (omega arith)
  gen_levels-AreLevels (suc levels) n (pos l) mid rng (bids, asks) one low room
        (b, a, bids_fit, asks_fit) =
      let level = pos l in
      let bid_price = max_ℤ (sub_i64 mid level) (pos 1) in
      let ask_price = add_i64 mid level in
      let (bid_qty, rng1) = G.gen_range (pos 1) (pos 10) rng in
      let (ask_qty, rng2) = G.gen_range (pos 1) (pos 10) rng1 in
      let ask_fits : pos 0 ≤ℤ ask_price =
        rw (sum_exact mid level one (omega arith) (omega arith)) (omega arith) in
      let next : add_i64 level (pos 1) ≡ pos (l + 1) =
        sum_exact level (pos 1) low (omega arith) (omega arith) ∙ ap pos (omega arith) in
      let bids' = bids ++ (bid_price, bid_qty) ∷ [] in
      let asks' = asks ++ (ask_price, ask_qty) ∷ [] in
      let (sides', rng', made, (b', a', bids_fit', asks_fit')) =
        gen_levels-AreLevels levels (n + 1) (pos (l + 1)) mid rng2 (bids', asks') one (omega arith)
          (omega arith)
          (
            omega (arith, b, length-append bids ((bid_price, bid_qty) ∷ [])),
            omega (arith, a, length-append asks ((ask_price, ask_qty) ∷ [])),
            All-append LevelFits bids bids_fit
                (max_one_fits (sub_i64 mid level) (sub_i64_fits mid level), drawn_fits rng),
            All-append LevelFits asks asks_fit (add_i64_fits mid level, drawn_fits rng1),
          ) in
      (
        sides',
        rng',
        rw
            (
              new_price-ok bid_price (omega (arith, max_one (sub_i64 mid level))),
              new_qty-ok bid_qty (omega (arith, draws.at_least (pos 1) (pos 10) rng (omega arith))),
              new_price-ok ask_price ask_fits,
              new_qty-ok ask_qty
                  (omega (arith, draws.at_least (pos 1) (pos 10) rng1 (omega arith))),
              next,
            )
            made,
        (omega (arith, b'), omega (arith, a'), bids_fit', asks_fit'),
      )
