-- ===== src/Polymarket/Markets/Ranking/Order.antt =====
-- polymarket/markets.py: the order of a listing, and what it leaves out.
use poly_holy_market_bot.Prelude.{
  ℕ, zero, suc, ◌≤◌, ◌≡◌, inl, inr, Bool, false, ◌&&◌, List, [], ◌∷◌, any, take, leb, All,
  All-imply, arith, Bool-cases,
}
use poly_holy_market_bot.Polymarket.Markets.{Market}
use poly_holy_market_bot.Polymarket.Markets.Ranking.{same_id, insert_desc, sort_desc, dedup}

abbrev pub AtMost : ℕ → List Market → Type 0
AtMost v = All (λ m. m.volume ≤ v)

-- Volumes do not rise along the list.
abbrev pub Descends : List Market → Type 0
Descends [] = Unit
Descends (m ∷ ms) = AtMost m.volume ms × Descends ms

-- No market has the id of an earlier one.
abbrev pub DistinctIds : List Market → Type 0
DistinctIds [] = Unit
DistinctIds (m ∷ ms) = All (λ n. same_id n m ≡ false) ms × DistinctIds ms

-- `n` has the id of `m` and at least its volume.
abbrev pub represents : Market → Market → Bool
represents m n = same_id m n && leb m.volume n.volume

module _ {κ} (P : Market → Type κ) where
  All-insert_desc : (m : Market) (ms : List Market) → P m → All P ms → All P (insert_desc m ms)
  unfolding insert_desc
  All-insert_desc m [] h hs = (h, tt)
  All-insert_desc m (n ∷ ns) h hs = elim (Bool-cases (leb n.volume m.volume)) [
    | inl le ↦ rw le (h, hs)
    | inr gt ↦ rw gt (hs.0, All-insert_desc m ns h hs.1)
  ]

  insert_desc-All : (m : Market) (ms : List Market) → All P (insert_desc m ms) → P m × All P ms
  unfolding insert_desc
  insert_desc-All m [] h = h
  insert_desc-All m (n ∷ ns) h = elim (Bool-cases (leb n.volume m.volume)) [
    | inl le ↦ rw le at h
    | inr gt ↦
        let (now, rest) = rw gt at h in let (hm, hs) = insert_desc-All m ns rest in (hm, (now, hs))
  ]

  pub sort_desc-All : (ms : List Market) → All P (sort_desc ms) → All P ms
  unfolding sort_desc
  sort_desc-All [] h = tt
  sort_desc-All (m ∷ ms) h =
      let (now, rest) = insert_desc-All m (sort_desc ms) h in (now, sort_desc-All ms rest)

  pub All-dedup : (seen ms : List Market) → All P ms → All P (dedup seen ms)
  unfolding dedup
  All-dedup seen [] h = tt
  All-dedup seen (m ∷ ms) h = elim (Bool-cases (any (same_id m) seen)) [
    | inl again ↦ rw again (All-dedup seen ms h.1)
    | inr new ↦ rw new (h.0, All-dedup (m ∷ seen) ms h.1)
  ]

  pub All-take : (k : ℕ) (ms : List Market) → All P ms → All P (take k ms)
  All-take zero ms h = tt
  All-take (suc k) [] h = tt
  All-take (suc k) (m ∷ ms) h = (h.0, All-take k ms h.1)

pub AtMost-weaken : (v w : ℕ) (ms : List Market) → v ≤ w → AtMost v ms → AtMost w ms
AtMost-weaken v w ms le = All-imply (λ m. m.volume ≤ v) (λ m. m.volume ≤ w) (λ m h. omega arith) ms

insert_desc-Descends : (m : Market) (ms : List Market) → Descends ms → Descends (insert_desc m ms)
unfolding insert_desc
insert_desc-Descends m [] h = (tt, tt)
insert_desc-Descends m (n ∷ ns) h = elim (Bool-cases (leb n.volume m.volume)) [
  | inl le ↦
      let low : n.volume ≤ m.volume = ground arith in
      rw le ((low, AtMost-weaken n.volume m.volume ns low h.0), h)
  | inr gt ↦
      let low : m.volume ≤ n.volume = ground arith in
      rw gt (All-insert_desc (λ x. x.volume ≤ n.volume) m ns low h.0, insert_desc-Descends m ns h.1)
]

pub sort_desc-Descends : (ms : List Market) → Descends (sort_desc ms)
unfolding sort_desc
sort_desc-Descends [] = tt
sort_desc-Descends (m ∷ ms) = insert_desc-Descends m (sort_desc ms) (sort_desc-Descends ms)

pub dedup-Descends : (seen ms : List Market) → Descends ms → Descends (dedup seen ms)
unfolding dedup
dedup-Descends seen [] h = tt
dedup-Descends seen (m ∷ ms) h = elim (Bool-cases (any (same_id m) seen)) [
  | inl again ↦ rw again (dedup-Descends seen ms h.1)
  | inr new ↦
      rw new
        (All-dedup (λ x. x.volume ≤ m.volume) (m ∷ seen) ms h.0, dedup-Descends (m ∷ seen) ms h.1)
]

-- Nothing that is kept has an id that was seen before.
dedup_unseen : (seen ms : List Market) → All (λ n. any (same_id n) seen ≡ false) (dedup seen ms)
unfolding dedup
dedup_unseen seen [] = tt
dedup_unseen seen (m ∷ ms) = elim (Bool-cases (any (same_id m) seen)) [
  | inl again ↦ rw again (dedup_unseen seen ms)
  | inr new ↦ rw new (
    new,
    All-imply (λ n. any (same_id n) (m ∷ seen) ≡ false) (λ n. any (same_id n) seen ≡ false)
        (λ n h. ground arith) (dedup (m ∷ seen) ms) (dedup_unseen (m ∷ seen) ms),
  )
]

pub dedup-DistinctIds : (seen ms : List Market) → DistinctIds (dedup seen ms)
unfolding dedup
dedup-DistinctIds seen [] = tt
dedup-DistinctIds seen (m ∷ ms) = elim (Bool-cases (any (same_id m) seen)) [
  | inl again ↦ rw again (dedup-DistinctIds seen ms)
  | inr new ↦ rw new (
    All-imply (λ n. any (same_id n) (m ∷ seen) ≡ false) (λ n. same_id n m ≡ false)
        (λ n h. ground arith) (dedup (m ∷ seen) ms) (dedup_unseen (m ∷ seen) ms),
    dedup-DistinctIds (m ∷ seen) ms,
  )
]
