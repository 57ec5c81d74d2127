-- ===== src/TcpServer/Map.antt =====
-- The map from names to connections.
use epoll.Base.{
  ℕ, ◌≡◌, refl, sym, ap, subst, inl, inr, true, false, [], ◌∷◌, ◌++◌, none, some, if◌then◌else◌,
  Bool-cases, arith, Text, text_eq, text_eq-eq,
}
use epoll.TcpServer.{ConnectionMap, find, assign, erase}

text_eq_trans : (n k j : Text) → text_eq n k ≡ true → text_eq n j ≡ text_eq k j
text_eq_trans n k j h = ap (λ t. text_eq t j) (text_eq-eq n k h)

distinct : (k j n : Text) → text_eq n k ≡ false → text_eq n j ≡ true → text_eq k j ≡ false
distinct k j n other hit = elim (Bool-cases (text_eq k j)) [
  | inr apart ↦ apart
  | inl same ↦
      absurd
        (ground (arith, other, subst (λ t. text_eq n t ≡ true) (sym (text_eq-eq k j same)) hit))
]

pub find-assign :
    (k j : Text) (a : ℕ) (m : ConnectionMap)
    → find j (assign k a m) ≡ (if text_eq k j then some a else find j m)
unfolding find assign
find-assign k j a [] = refl
find-assign k j a (entry ∷ m) = elim (Bool-cases (text_eq entry.0 k)) [
  | inl same ↦ rw same (ground (arith, text_eq_trans entry.0 k j same))
  | inr other ↦ elim (Bool-cases (text_eq entry.0 j)) [
    | inl hit ↦
        let apart : text_eq k j ≡ false = distinct k j entry.0 other hit in
        rw (other, hit, apart) refl
    | inr miss ↦ rw (other, miss) (find-assign k j a m)
  ]
]

pub find-erase :
    (k j : Text) (m : ConnectionMap) → find j (erase k m) ≡ (if text_eq k j then none else find j m)
unfolding find erase
find-erase k j [] = ground arith
find-erase k j (entry ∷ m) = elim (Bool-cases (text_eq entry.0 k)) [
  | inl same ↦ rw (same, find-erase k j m) (ground (arith, text_eq_trans entry.0 k j same))
  | inr other ↦ elim (Bool-cases (text_eq entry.0 j)) [
    | inl hit ↦
        let apart : text_eq k j ≡ false = distinct k j entry.0 other hit in
        rw (other, hit, apart) refl
    | inr miss ↦ rw (other, miss) (find-erase k j m)
  ]
]

-- A new name is put behind the others.
pub assign-new :
    (k : Text) (a : ℕ) (m : ConnectionMap) → find k m ≡ none → assign k a m ≡ m ++ ((k, a) ∷ [])
unfolding find assign
assign-new k a [] h = refl
assign-new k a (entry ∷ m) h = elim (Bool-cases (text_eq entry.0 k)) [
  | inl same ↦ absurd (ground (arith, h, same))
  | inr other ↦ rw (other, assign-new k a m (ground (arith, h, other))) refl
]
