-- ===== src/TimerQueue/Sets.antt =====
-- The ordered sets of pairs.
use epoll.Base.{ℕ, suc, ◌≡◌, refl, Bool, true, false, not, ◌&&◌, ◌||◌, [], ◌∷◌, length, arith}
use epoll.TimerQueue.{Pairs, less, same_pair, contains, put, remove}

-- Every member is above `x`.
unfoldable pub is_above : ℕ × ℕ → Pairs → Bool
is_above x [] = true
is_above x (y ∷ s) = less x y && is_above x s

unfoldable pub is_sorted : Pairs → Bool
is_sorted [] = true
is_sorted (x ∷ s) = is_above x s && is_sorted s

pub contains-put :
    (x z : ℕ × ℕ) (s : Pairs) → contains z (put x s) ≡ (same_pair z x || contains z s)
unfolding contains put
contains-put x z [] = refl
contains-put x z (y ∷ s) = ground (arith, contains-put x z s)

pub length-put : (x : ℕ × ℕ) (s : Pairs) → length (put x s) ≡ suc (length s)
unfolding put
length-put x [] = refl
length-put x (y ∷ s) = ground (arith, length-put x s)

pub length-remove :
    (x : ℕ × ℕ) (s : Pairs) → contains x s ≡ true → suc (length (remove x s)) ≡ length s
unfolding contains remove
length-remove x [] h = cc
length-remove x (y ∷ s) h = ground (arith, length-remove x s)

above-lower :
    (x y : ℕ × ℕ) (s : Pairs) → less x y ≡ true → is_above y s ≡ true → is_above x s ≡ true
unfolding is_above
above-lower x y [] h a = refl
above-lower x y (z ∷ s) h a = ground (arith, above-lower x y s)

above-put :
    (z x : ℕ × ℕ) (s : Pairs) → less z x ≡ true → is_above z s ≡ true → is_above z (put x s) ≡ true
unfolding is_above put
above-put z x [] h a = ground (arith, h)
above-put z x (y ∷ s) h a = ground (arith, above-put z x s)

pub put-sorted :
    (x : ℕ × ℕ) (s : Pairs) → is_sorted s ≡ true → contains x s ≡ false → is_sorted (put x s) ≡ true
unfolding is_sorted is_above contains put
put-sorted x [] h n = refl
put-sorted x (y ∷ s) h n = ground (arith, put-sorted x s, above-lower x y s, above-put y x s)

above-remove : (z x : ℕ × ℕ) (s : Pairs) → is_above z s ≡ true → is_above z (remove x s) ≡ true
unfolding is_above remove
above-remove z x [] h = refl
above-remove z x (y ∷ s) h = ground (arith, above-remove z x s)

pub remove-sorted : (x : ℕ × ℕ) (s : Pairs) → is_sorted s ≡ true → is_sorted (remove x s) ≡ true
unfolding is_sorted remove
remove-sorted x [] h = refl
remove-sorted x (y ∷ s) h = ground (arith, remove-sorted x s, above-remove y x s)

not-contains-above : (x : ℕ × ℕ) (s : Pairs) → is_above x s ≡ true → contains x s ≡ false
unfolding is_above contains
not-contains-above x [] h = refl
not-contains-above x (y ∷ s) h = ground (arith, not-contains-above x s)

same_pair-contains : (x y : ℕ × ℕ) (s : Pairs) → same_pair x y ≡ true → contains x s ≡ contains y s
unfolding contains
same_pair-contains x y [] h = refl
same_pair-contains x y (z ∷ s) h = ground (arith, same_pair-contains x y s)

pub contains-remove :
    (x z : ℕ × ℕ) (s : Pairs)
    → is_sorted s ≡ true
    → contains z (remove x s) ≡ (not (same_pair z x) && contains z s)
unfolding contains remove is_sorted
contains-remove x z [] h = ground arith
contains-remove x z (y ∷ s) h =
    ground (arith, contains-remove x z s, not-contains-above y s, same_pair-contains z y s)
