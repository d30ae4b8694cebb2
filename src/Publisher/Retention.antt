-- ===== src/Publisher/Retention.antt =====
-- The numbers that revisions get and the revisions that are pruned (internal/store/managed.go).
use m_ui.Prelude.{
  ℕ, zero, suc, ◌+◌, ◌-◌, ◌<◌, ◌≡◌, refl, ◌∙◌, ap, subst, Bool, true, false, not, List, [], ◌∷◌,
  arith, ◌==◌, ◌&&◌, if◌then◌else◌, keep, length, leb, ltb, ◌≤◌, All, All-map,
}
use m_ui.Publisher.World.{Revision, RevisionStatus}
use m_ui.Publisher.Monad.{ok}
use m_ui.Publisher.Rows.{
  is_active, is_finished, actives, highest_number, next_number, clashes, insert_row, insert_ordered,
  order_rows, skip, inactive_beyond,
}

-- No row has the id.
abbrev pub is_unused : ℕ → List Revision → Bool
is_unused id [] = true
is_unused id (s ∷ rs) = not (id == s.id) && is_unused id rs

clashes-above :
    (r : Revision) (rs : List Revision)
    → is_unused r.id rs ≡ true
    → highest_number rs < r.revision_number
    → clashes r rs ≡ false
unfolding clashes
clashes-above r [] u h = refl
clashes-above r (s ∷ rs) u h = ground (arith, clashes-above r rs)

-- A row with an unused id and the next number, whose actor is empty or an administrator, is
-- inserted, and all the other rows stay.
pub insert_row-next_number :
    (is_known : Bool) (r : Revision) (rs : List Revision)
    → is_known ≡ true
    → is_unused r.id rs ≡ true
    → r.revision_number ≡ next_number rs
    → insert_row is_known r rs ≡ ok (r ∷ rs)
unfolding insert_row next_number
insert_row-next_number is_known r rs k u h = rw k (rw (clashes-above r rs u (omega arith)) refl)

length-insert_ordered :
    (r : Revision) (rs : List Revision) → length (insert_ordered r rs) ≡ length rs + 1
unfolding insert_ordered
length-insert_ordered r [] = refl
length-insert_ordered r (s ∷ rs) = ground (arith, length-insert_ordered r rs)

length-order_rows : (rs : List Revision) → length (order_rows rs) ≡ length rs
unfolding order_rows
length-order_rows [] = refl
length-order_rows (r ∷ rs) =
    ground (arith, length-insert_ordered r (order_rows rs), length-order_rows rs)

length-skip : (n : ℕ) (rs : List Revision) → length (skip n rs) ≡ length rs - n
length-skip zero rs = omega arith
length-skip (suc n) [] = omega arith
length-skip (suc n) (r ∷ rs) = ground (arith, length-skip n rs)

actives-insert_ordered :
    (r : Revision) (rs : List Revision)
    → is_active r.status ≡ false
    → actives (insert_ordered r rs) ≡ actives rs
unfolding insert_ordered
actives-insert_ordered r [] h = ground arith
actives-insert_ordered r (s ∷ rs) h = ground (arith, actives-insert_ordered r rs)

finished-inactive : (s : RevisionStatus) → is_finished s ≡ true → is_active s ≡ false
finished-inactive s h = ground arith

ordered_if :
    (b : Bool) (r : Revision) (rs : List Revision)
    → (b ≡ true → is_active r.status ≡ false)
    → actives (order_rows rs) ≡ []
    → actives (order_rows (if b then r ∷ rs else rs)) ≡ []
unfolding order_rows
ordered_if true r rs k h = actives-insert_ordered r (order_rows rs) (k refl) ∙ h
ordered_if false r rs k h = h

actives-order_finished :
    (rs : List Revision) → actives (order_rows (keep (λ r. is_finished r.status) rs)) ≡ []
unfolding order_rows
actives-order_finished [] = refl
actives-order_finished (r ∷ rs) =
    ordered_if (is_finished r.status) r (keep (λ s. is_finished s.status) rs)
      (finished-inactive r.status) (actives-order_finished rs)

actives-skip : (n : ℕ) (rs : List Revision) → actives rs ≡ [] → actives (skip n rs) ≡ []
actives-skip zero rs h = h
actives-skip (suc n) [] h = refl
actives-skip (suc n) (r ∷ rs) h = ground (arith, actives-skip n rs)

abbrev pub is_pruneable : Revision → Bool
is_pruneable r = is_finished r.status

-- The finished rows whose number is that of a row or a higher one.
abbrev pub not_older : Revision → List Revision → ℕ
not_older r rs = length (keep (λ s. leb r.revision_number s.revision_number) rs)

not_older-insert_ordered :
    (r s : Revision) (rs : List Revision) → not_older r (insert_ordered s rs) ≡ not_older r (s ∷ rs)
unfolding insert_ordered
not_older-insert_ordered r s [] = refl
not_older-insert_ordered r s (t ∷ rs) = ground (arith, not_older-insert_ordered r s rs)

not_older-cons :
    (r s : Revision) (rs ss : List Revision)
    → not_older r rs ≡ not_older r ss
    → not_older r (s ∷ rs) ≡ not_older r (s ∷ ss)
not_older-cons r s rs ss h = ground arith

not_older-order_rows :
    (r : Revision) (rs : List Revision) → not_older r (order_rows rs) ≡ not_older r rs
unfolding order_rows
not_older-order_rows r [] = refl
not_older-order_rows r (s ∷ rs) =
    not_older-insert_ordered r s (order_rows rs)
    ∙ not_older-cons r s (order_rows rs) rs (not_older-order_rows r rs)

-- Highest number first.
abbrev IsOrdered : List Revision → Type 0
IsOrdered [] = Unit
IsOrdered (r ∷ rs) = All (λ s. s.revision_number ≤ r.revision_number) rs × IsOrdered rs

All-insert_ordered :
    (n : ℕ) (r : Revision) (rs : List Revision)
    → r.revision_number ≤ n
    → All (λ s. s.revision_number ≤ n) rs
    → All (λ s. s.revision_number ≤ n) (insert_ordered r rs)
unfolding insert_ordered
All-insert_ordered n r [] h k = (h, tt)
All-insert_ordered n r (s ∷ rs) h k = ground (arith, All-insert_ordered n r rs)

lower-All :
    (m n : ℕ) (rs : List Revision)
    → m ≤ n
    → All (λ s. s.revision_number ≤ m) rs
    → All (λ s. s.revision_number ≤ n) rs
lower-All m n rs h = All-map (λ s k. omega arith) rs

insert_ordered-IsOrdered :
    (r : Revision) (rs : List Revision) → IsOrdered rs → IsOrdered (insert_ordered r rs)
unfolding insert_ordered
insert_ordered-IsOrdered r [] h = (tt, tt)
insert_ordered-IsOrdered r (s ∷ rs) h =
    place (insert_ordered-IsOrdered r rs h.1) (ltb r.revision_number s.revision_number)
      (λ e. ground arith) (λ e. ground arith)
  where
    place :
        IsOrdered (insert_ordered r rs)
        → (b : Bool) → (b ≡ true → r.revision_number ≤ s.revision_number)
        → (b ≡ false → s.revision_number ≤ r.revision_number)
        → IsOrdered (if b then s ∷ insert_ordered r rs else r ∷ s ∷ rs)
    place ordered true below above =
        (All-insert_ordered s.revision_number r rs (below refl) h.0, ordered)
    place ordered false below above = (
      (above refl, lower-All s.revision_number r.revision_number rs (above refl) h.0),
      (h.0, h.1),
    )

order_rows-IsOrdered : (rs : List Revision) → IsOrdered (order_rows rs)
unfolding order_rows
order_rows-IsOrdered [] = tt
order_rows-IsOrdered (r ∷ rs) = insert_ordered-IsOrdered r (order_rows rs) (order_rows-IsOrdered rs)

All-skip : (P : Revision → Type 0) (n : ℕ) (rs : List Revision) → All P rs → All P (skip n rs)
All-skip P zero rs h = h
All-skip P (suc n) [] h = tt
All-skip P (suc n) (r ∷ rs) h = All-skip P n rs h.1

All-both :
    (P Q R : Revision → Type 0)
    → ((r : Revision) → P r → Q r → R r)
    → (rs : List Revision) → All P rs
    → All Q rs
    → All R rs
All-both P Q R f [] h k = tt
All-both P Q R f (r ∷ rs) h k = (f r h.0 k.0, All-both P Q R f rs h.1 k.1)

counts_itself : (rs : List Revision) → All (λ r. 0 < not_older r rs) rs
counts_itself [] = tt
counts_itself (r ∷ rs) = (ground arith, All-map (λ s h. ground arith) rs (counts_itself rs))

-- In an ordered list, a row after the first `n` has `n` others before it.
skip-outranked :
    (n : ℕ) (rs : List Revision) → IsOrdered rs → All (λ r. n < not_older r rs) (skip n rs)
skip-outranked zero rs h = counts_itself rs
skip-outranked (suc n) [] h = tt
skip-outranked (suc n) (r ∷ rs) h =
    All-both (λ s. s.revision_number ≤ r.revision_number) (λ s. n < not_older s rs) _
      (λ s below outranked. ground arith) (skip n rs) (All-skip _ n rs h.0)
      (skip-outranked n rs h.1)

-- With a positive limit, the rows to be pruned are found: none of them is active, they are as many
-- as there are finished rows beyond the limit, and of the finished rows more than the limit have
-- the number of a pruned row or a higher one, so that the newest stay.
pub inactive_beyond-oldest :
    (limit : ℕ) (rs : List Revision)
    → 0 < limit
    → (pruned : List Revision) × (inactive_beyond limit rs ≡ ok pruned)
      × (actives pruned ≡ [])
      × (length pruned ≡ length (keep is_pruneable rs) - limit)
      × All (λ r. limit < not_older r (keep is_pruneable rs)) pruned
unfolding inactive_beyond
inactive_beyond-oldest limit rs positive =
    let finished = keep is_pruneable rs in
    let ordered = order_rows finished in
    let some_limit : ltb limit 1 ≡ false = ground arith in
    (
      skip limit ordered,
      rw some_limit refl,
      actives-skip limit ordered (actives-order_finished rs),
      length-skip limit ordered ∙ ap (λ n. n - limit) (length-order_rows finished),
      All-map (λ r h. subst (λ n. limit < n) (not_older-order_rows r finished) h)
          (skip limit ordered) (skip-outranked limit ordered (order_rows-IsOrdered finished)),
    )
