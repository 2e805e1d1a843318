-- ===== src/Polymarket/Markets/Ranking/Best.antt =====
-- polymarket/markets.py: what `category_markets` promises of its listing.
use poly_holy_market_bot.Prelude.{
  ℕ, zero, suc, ◌≤◌, ◌≡◌, ◌⊎◌, inl, inr, refl, true, false, ◌||◌, Option, List, [], ◌∷◌, any, take,
  length, length-take_le, Text, text_eq_refl, All, All-imply, arith, Bool-cases,
}
use mathlib.Core.Path.{subst, sym}
use poly_holy_market_bot.Polymarket.Markets.{Scalar, Market}
use poly_holy_market_bot.Polymarket.Markets.Ranking.{
  Event, collect_events, same_id, sort_desc, dedup, category_listing,
}
use poly_holy_market_bot.Polymarket.Markets.Ranking.Order.{
  AtMost, Descends, DistinctIds, represents, sort_desc-All, All-take, sort_desc-Descends,
  dedup-Descends, dedup-DistinctIds,
}

same_id_refl : (m : Market) → same_id m m ≡ true
same_id_refl m = grind (arith, text_eq_refl)

-- Where all seen markets have at least the volume of `m`, a seen id is a representative.
seen_represents :
    (m : Market) (seen : List Market)
    → All (λ s. m.volume ≤ s.volume) seen
    → any (same_id m) seen ≡ true
    → any (represents m) seen ≡ true
seen_represents m [] h e = e
seen_represents m (s ∷ seen) h e = ground (arith, seen_represents m seen h.1)

-- Every market of `ms` is represented by what was seen or by what is kept.
abbrev Covers : List Market → List Market → List Market → Type 0
Covers seen kept = All (λ m. any (represents m) seen || any (represents m) kept ≡ true)

dedup_again :
    (m : Market) (seen ms : List Market)
    → any (same_id m) seen ≡ true
    → dedup seen (m ∷ ms) ≡ dedup seen ms
unfolding dedup
dedup_again m seen ms again = rw again refl

dedup_new :
    (m : Market) (seen ms : List Market)
    → any (same_id m) seen ≡ false
    → dedup seen (m ∷ ms) ≡ m ∷ dedup (m ∷ seen) ms
unfolding dedup
dedup_new m seen ms new = rw new refl

Covers-again :
    (m : Market) (seen kept ms : List Market)
    → any (represents m) seen ≡ true
    → Covers seen kept ms
    → Covers seen kept (m ∷ ms)
Covers-again m seen kept ms here rest = (ground arith, rest)

Covers-new :
    (m : Market) (seen kept ms : List Market)
    → Covers (m ∷ seen) kept ms
    → Covers seen (m ∷ kept) (m ∷ ms)
Covers-new m seen kept ms rest = (
  ground (arith, same_id_refl m),
  All-imply (λ n. any (represents n) (m ∷ seen) || any (represents n) kept ≡ true)
      (λ n. any (represents n) seen || any (represents n) (m ∷ kept) ≡ true) (λ n h. ground arith)
      ms rest,
)

dedup_represented :
    (seen ms : List Market)
    → Descends ms
    → All (λ s. AtMost s.volume ms) seen
    → Covers seen (dedup seen ms) ms
dedup_represented seen [] down above = tt
dedup_represented seen (m ∷ ms) down above =
    let rest : All (λ s. AtMost s.volume ms) seen =
      All-imply (λ s. AtMost s.volume (m ∷ ms)) (λ s. AtMost s.volume ms) (λ s h. h.1) seen above in
    let here : All (λ s. m.volume ≤ s.volume) seen =
      All-imply (λ s. AtMost s.volume (m ∷ ms)) (λ s. m.volume ≤ s.volume) (λ s h. h.0) seen
        above in
    elim (Bool-cases (any (same_id m) seen)) [
      | inl again ↦
          subst (λ kept. Covers seen kept (m ∷ ms)) (sym (dedup_again m seen ms again))
            (Covers-again m seen (dedup seen ms) ms (seen_represents m seen here again)
              (dedup_represented seen ms down.1 rest))
      | inr new ↦
          subst (λ kept. Covers seen kept (m ∷ ms)) (sym (dedup_new m seen ms new))
            (Covers-new m seen (dedup (m ∷ seen) ms) ms
              (dedup_represented (m ∷ seen) ms down.1 (down.0, rest)))
    ]

represented_volume :
    (m : Market) (v : ℕ) (ms : List Market)
    → AtMost v ms
    → any (represents m) ms ≡ true
    → m.volume ≤ v
represented_volume m v [] low e = absurd cc
represented_volume m v (n ∷ ms) low e = ground (arith, represented_volume m v ms low.1)

Descends-take : (k : ℕ) (ms : List Market) → Descends ms → Descends (take k ms)
Descends-take zero ms h = tt
Descends-take (suc k) [] h = tt
Descends-take (suc k) (m ∷ ms) h =
    (All-take (λ n. n.volume ≤ m.volume) k ms h.0, Descends-take k ms h.1)

DistinctIds-take : (k : ℕ) (ms : List Market) → DistinctIds ms → DistinctIds (take k ms)
DistinctIds-take zero ms h = tt
DistinctIds-take (suc k) [] h = tt
DistinctIds-take (suc k) (m ∷ ms) h =
    (All-take (λ n. same_id n m ≡ false) k ms h.0, DistinctIds-take k ms h.1)

-- `m` is in the listing under its id, or the listing is full of markets of at least its volume.
abbrev pub ListedOrOutranked : ℕ → List Market → Market → Type 0
ListedOrOutranked limit out m =
    (any (represents m) out ≡ true) ⊎ ((length out ≡ limit) × All (λ n. m.volume ≤ n.volume) out)

represented-take :
    (m : Market) (k : ℕ) (ms : List Market)
    → Descends ms
    → any (represents m) ms ≡ true
    → ListedOrOutranked k (take k ms) m
represented-take m zero ms down e = inr (refl, tt)
represented-take m (suc k) [] down e = absurd cc
represented-take m (suc k) (n ∷ ms) down e = elim (Bool-cases (represents m n)) [
  | inl now ↦ inl (ground arith)
  | inr later ↦
      let found : any (represents m) ms ≡ true = ground arith in
      elim (represented-take m k ms down.1 found) [
        | inl listed ↦ inl (ground arith)
        | inr (full, outranked) ↦
            inr (omega (arith, full), (represented_volume m n.volume ms down.0 found, outranked))
      ]
]

-- The listing of a category has at most `limit` markets, in order of falling volume, no two with
-- the same id; and every open binary market of the events that were read is either listed, under
-- its id and with at least its volume, or outranked by all markets of a full listing.
pub category_listing_best :
    (loads : Text → Option (List Scalar)) (limit : ℕ) (events : List Event)
    → let out = category_listing loads limit events in
      (length out ≤ limit)
      × Descends out
      × DistinctIds out
      × All (ListedOrOutranked limit out) (collect_events loads events)
unfolding category_listing
category_listing_best loads limit events =
    let ms = collect_events loads events in
    let sorted = sort_desc ms in
    let kept = dedup [] sorted in
    let down = dedup-Descends [] sorted (sort_desc-Descends ms) in
    (
      length-take_le limit kept,
      Descends-take limit kept down,
      DistinctIds-take limit kept (dedup-DistinctIds [] sorted),
      sort_desc-All (ListedOrOutranked limit (take limit kept)) ms (
          All-imply (λ m. any (represents m) kept ≡ true)
            (ListedOrOutranked limit (take limit kept))
            (λ m h. represented-take m limit kept down h) sorted
            (dedup_represented [] sorted (sort_desc-Descends ms) tt)),
    )
