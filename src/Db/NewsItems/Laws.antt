-- ===== src/Db/NewsItems/Laws.antt =====
-- db/repositories/news_items.py: which items the approvals promote, and which the jobs read.
use poly_holy_market_bot.Prelude.{
  ℕ, zero, suc, ◌≤◌, ◌≡◌, inl, inr, refl, ap, Bool, true, false, ◌&&◌, List, [], ◌∷◌, ◌==◌, ==_refl,
  length, take, any, filter, update_where, All, filter-All, filter_covers, filter_from, arith,
  Bool-cases, sort_by, All-sort_by, sort_by-All, All-take, Beaten, take-Beaten, sort_by-Sorted,
}
use poly_holy_market_bot.Db.News.{NewsItem}
use poly_holy_market_bot.Db.NewsItems.{
  better, same_item, is_backlog, fresh_backlog, promoted, approve, approve_rows, auto_approve_ids,
  approve_ids, is_publishable, ready_to_publish,
}

pub same_item_refl : (i : NewsItem) → same_item i i ≡ true
same_item_refl i = ==_refl i.id

better_asym : (a b : NewsItem) → better a b ≡ true → better b a ≡ false
unfolding better
better_asym a b h = ground arith

better_weak : (a b c : NewsItem) → better b a ≡ false → better c b ≡ false → better c a ≡ false
unfolding better
better_weak a b c h g = ground arith

pub length-take_le_left {ℓ} : {A : Type ℓ} (n : ℕ) (xs : List A) → length (take n xs) ≤ n
length-take_le_left zero xs = omega arith
length-take_le_left (suc n) [] = omega arith
length-take_le_left (suc n) (x ∷ xs) = omega (arith, length-take_le_left n xs)

-- One of the given ids, and still in the backlog.
abbrev pub is_fresh : List ℕ → NewsItem → Bool
is_fresh ids i = any (λ id. id == i.id) ids && is_backlog i.status

update_where_never {ℓ} :
    {A : Type ℓ} (f : A → A) (xs : List A) → update_where (λ x. false) f xs ≡ xs
update_where_never f [] = refl
update_where_never f (x ∷ xs) = ap (◌∷◌ x) (update_where_never f xs)

fresh_backlog_nil : (items : List NewsItem) → fresh_backlog [] items ≡ []
unfolding fresh_backlog
fresh_backlog_nil [] = refl
fresh_backlog_nil (i ∷ items) = fresh_backlog_nil items

promoted_nil : (limit : ℕ) (items : List NewsItem) → promoted [] limit items ≡ []
unfolding promoted sort_by
promoted_nil zero items = refl
promoted_nil (suc n) items = rw (promoted, fresh_backlog_nil items) refl

approve_rows_nil : (items : List NewsItem) → approve_rows [] items ≡ items
unfolding approve_rows
approve_rows_nil items = update_where_never approve items

pub auto_approve_rows :
    (ids : List ℕ) (limit : ℕ) (items : List NewsItem)
    → auto_approve_ids ids limit items
      ≡ (approve_rows (promoted ids limit items) items, length (promoted ids limit items))
unfolding auto_approve_ids promoted
auto_approve_rows [] limit items = rw (promoted_nil limit items, approve_rows_nil items) refl
auto_approve_rows (id ∷ ids) zero items = rw (approve_rows_nil items) refl
auto_approve_rows (id ∷ ids) (suc n) items = refl

promoted-fresh :
    (ids : List ℕ) (limit : ℕ) (items : List NewsItem)
    → All (λ i. is_fresh ids i ≡ true) (promoted ids limit items)
unfolding promoted fresh_backlog
promoted-fresh ids limit items =
    let P = λ (i : NewsItem). is_fresh ids i ≡ true in
    All-take better P limit (sort_by better (fresh_backlog ids items)) (
      All-sort_by better P (fresh_backlog ids items) (filter-All P (is_fresh ids) items (λ i h. h)))

promoted-best :
    (ids : List ℕ) (limit : ℕ) (items : List NewsItem)
    → All (Beaten better same_item (promoted ids limit items)) (fresh_backlog ids items)
unfolding promoted
promoted-best ids limit items =
    let rows = fresh_backlog ids items in
    sort_by-All better (Beaten better same_item (promoted ids limit items)) rows (
      take-Beaten better same_item same_item_refl limit (sort_by better rows)
        (sort_by-Sorted better better_asym better_weak rows))

-- auto_approve_ids approves at most `limit` items, all of them among the given ids and still in the
-- backlog, and returns how many; no fresh item that it leaves has a higher score than one that it
-- approves, nor the same score and a smaller id. Every other item stays as it is.
pub auto_approve_best :
    (ids : List ℕ) (limit : ℕ) (items : List NewsItem)
    → (auto_approve_ids ids limit items ≡ (
      update_where (λ i. any (same_item i) (promoted ids limit items)) approve items,
      length (promoted ids limit items),
    ))
      × (length (promoted ids limit items) ≤ limit)
      × All (λ i. is_fresh ids i ≡ true) (promoted ids limit items)
      × All (Beaten better same_item (promoted ids limit items)) (fresh_backlog ids items)
unfolding approve_rows promoted
auto_approve_best ids limit items = (
  auto_approve_rows ids limit items,
  length-take_le_left limit (sort_by better (fresh_backlog ids items)),
  promoted-fresh ids limit items,
  promoted-best ids limit items,
)

-- Once every fresh item is approved, none is fresh.
fresh_backlog-approve_rows :
    (ids : List ℕ) (rows items : List NewsItem)
    → All (λ i. is_fresh ids i ≡ true → any (same_item i) rows ≡ true) items
    → fresh_backlog ids (approve_rows rows items) ≡ []
unfolding fresh_backlog approve_rows approve
fresh_backlog-approve_rows ids rows [] h = refl
fresh_backlog-approve_rows ids rows (i ∷ items) h = elim (Bool-cases (any (same_item i) rows)) [
  | inl chosen ↦ ground (arith, chosen, fresh_backlog-approve_rows ids rows items h.1)
  | inr left ↦ ground (arith, left, h.0, fresh_backlog-approve_rows ids rows items h.1)
]

-- A second approve_ids with the same ids promotes nothing and changes nothing.
pub approve_ids_idempotent :
    (ids : List ℕ) (items : List NewsItem)
    → approve_ids ids (approve_ids ids items).0 ≡ ((approve_ids ids items).0, 0)
unfolding approve_ids fresh_backlog
approve_ids_idempotent [] items = refl
approve_ids_idempotent (id ∷ ids) items =
    let rows = fresh_backlog (id ∷ ids) items in
    let covered = filter_covers (is_fresh (id ∷ ids)) same_item same_item_refl items in
    let done = fresh_backlog-approve_rows (id ∷ ids) rows items covered in
    rw (done, approve_rows_nil (approve_rows rows items)) refl

-- What publish_job reads: ready items, with a market if the configuration asks for one.
pub ready_to_publish_rows :
    (limit : ℕ) (require_market : Bool) (items : List NewsItem)
    → (length (ready_to_publish limit require_market items) ≤ limit)
      × All
          (λ i. any (λ j. same_item i j && is_publishable require_market j) items ≡ true)
          (ready_to_publish limit require_market items)
unfolding ready_to_publish
ready_to_publish_rows limit require_market items =
    let test = is_publishable require_market in
    let P = λ (i : NewsItem). any (λ j. same_item i j && test j) items ≡ true in
    (
      length-take_le_left limit (sort_by better (filter test items)),
      All-take better P limit (sort_by better (filter test items)) (
          All-sort_by better P (filter test items)
            (filter_from test same_item same_item_refl items)),
    )
