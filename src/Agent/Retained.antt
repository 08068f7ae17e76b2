-- ===== src/Agent/Retained.antt =====
-- What is retained, what an ack frees, and in which order the rest is sent again.
use rekuest.Prelude.{
  ℕ, ◌≡◌, refl, ap, ◌∙◌, String, ◌||◌, List, [], ◌∷◌, arith, ◌==◌, contains, string_eq, nat_eq,
  pair_eq,
}
use rekuest.Prelude.Dict.{Dict, lookup, has, keys}
use rekuest.Prelude.Order.{
  key_le, key_le_total, key_le_trans, sort_by, sort, insert_sorted, IsOrdered, sort-IsOrdered,
}
use rekuest.Agent.{RetainedKey, Delivery, resend_key, resend_order}

contains-insert_sorted :
    (f : RetainedKey → ℕ × String × ℕ) (k x : RetainedKey) (xs : List RetainedKey)
    → contains k (insert_sorted (λ a b. key_le (f a) (f b)) x xs) ≡ ((x == k) || contains k xs)
unfolding insert_sorted
contains-insert_sorted f k x [] = refl
contains-insert_sorted f k x (y ∷ ys) = ground (arith, contains-insert_sorted f k x ys)

contains-sort_by :
    (f : RetainedKey → ℕ × String × ℕ) (k : RetainedKey) (xs : List RetainedKey)
    → contains k (sort_by f xs) ≡ contains k xs
unfolding sort
contains-sort_by f k [] = refl
contains-sort_by f k (x ∷ xs) =
    contains-insert_sorted f k x (sort_by f xs) ∙ ap (λ b. (x == k) || b) (contains-sort_by f k xs)

contains-keys :
    {F : Type 0} (k : RetainedKey) (d : Dict RetainedKey F) → contains k (keys d) ≡ has k d
unfolding lookup
contains-keys k [] = refl
contains-keys k ((j, frame) ∷ d) = ground (arith, contains-keys k d)

-- The resend order lists exactly the keys that are retained, by the creation time of their session,
-- then by session, then by position.
pub resend_order_lem :
    {F : Type 0} (d : Delivery F)
    → IsOrdered (λ a b. key_le (resend_key d a) (resend_key d b)) (resend_order d)
      × ((k : RetainedKey) → contains k (resend_order d) ≡ has k d.retained)
unfolding resend_order
resend_order_lem d = (
  sort-IsOrdered _ (λ a b. key_le_total (key a) (key b))
      (λ a b c. key_le_trans (key a) (key b) (key c)) (keys d.retained),
  λ k. contains-sort_by key k (keys d.retained) ∙ contains-keys k d.retained,
)
  where
    key : RetainedKey → ℕ × String × ℕ
    key = resend_key d
