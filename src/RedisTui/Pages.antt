-- ===== src/RedisTui/Pages.antt =====
-- clients/tui/redis_tui.cpp: the pages of the data browser.
use minimum_redis.Base.{
  ℕ, zero, suc, ◌+◌, ◌-◌, ◌*◌, ◌%◌, ◌^◌, ◌≤◌, ◌<◌, min, List, [], ◌∷◌, ◌++◌, Bytes, length, take,
  drop, length-drop, ◌⊎◌, inl, inr, ◌≡◌, refl, sym, ap, ◌∙◌, arith,
}
use minimum_redis.RedisTui.{EnhancedRedisTui, page_size}
use minimum_redis.RedisTui.Browser.{shown}

take-all : {A : Type 0} (n : ℕ) (xs : List A) → length xs ≤ n → take n xs ≡ xs
take-all zero [] h = refl
take-all zero (x ∷ xs) h = absurd (omega arith)
take-all (suc n) [] h = refl
take-all (suc n) (x ∷ xs) h = ap (◌∷◌ x) (take-all n xs (omega arith))

le-or-lt : (a b : ℕ) → (a < b) ⊎ (b ≤ a)
le-or-lt a b = ground arith

take-full :
    {A : Type 0} (n start : ℕ) (xs : List A)
    → min (start + n) (length xs) - start ≡ n
    → take (min (start + n) (length xs) - start) (drop start xs) ≡ take n (drop start xs)
take-full n start xs h = ap (λ k. take k (drop start xs)) h

-- Taking no more than there is.
take-min :
    {A : Type 0} (n start : ℕ) (xs : List A)
    → take (min (start + n) (length xs) - start) (drop start xs) ≡ take n (drop start xs)
take-min n start xs =
    let size = length-drop start xs in
    elim (le-or-lt (length (drop start xs)) n) [
      | inl less ↦
          let some_left : length (drop start xs) ≤ min (start + n) (length xs) - start =
            omega (arith, size, less) in
          take-all (min (start + n) (length xs) - start) (drop start xs) some_left
          ∙ sym (take-all n (drop start xs) (omega (arith, less)))
      | inr enough ↦ take-full n start xs (omega (arith, size, enough))
    ]

take-add : {A : Type 0} (n m : ℕ) (xs : List A) → take n xs ++ take m (drop n xs) ≡ take (n + m) xs
take-add zero m xs = let e : 0 + m ≡ m = omega arith in rw e refl
take-add (suc n) zero [] = let e : suc n + 0 ≡ suc n = omega arith in rw e refl
take-add (suc n) (suc m) [] = let e : suc n + suc m ≡ suc (n + suc m) = omega arith in rw e refl
take-add (suc n) m (x ∷ xs) =
    let e : suc n + m ≡ suc (n + m) = omega arith in rw e (ap (◌∷◌ x) (take-add n m xs))

module _ {W : Type 0} where
  -- The page that a client shows, if it were at that page.
  abbrev pub page_at : ℕ → EnhancedRedisTui W → List (Bytes × Bytes)
  page_at i t = shown (record t { current_page = i })

  -- The first pages, one behind the other.
  abbrev pub pages : ℕ → EnhancedRedisTui W → List (Bytes × Bytes)
  pages zero t = []
  pages (suc n) t = pages n t ++ page_at n t

  page_at-take :
      (i : ℕ) (t : EnhancedRedisTui W)
      → i * page_size + page_size < 2 ^ 64
      → page_at i t ≡ take page_size (drop (i * page_size) t.key_value_pairs)
  unfolding shown
  page_at-take i t h =
      let small : i * page_size % 2 ^ 64 ≡ i * page_size = omega arith in
      let small' : (i * page_size + page_size) % 2 ^ 64 ≡ i * page_size + page_size = omega arith in
      rw (small, small') (take-min page_size (i * page_size) t.key_value_pairs)

  pages-take :
      (k : ℕ) (t : EnhancedRedisTui W)
      → k * page_size < 2 ^ 64
      → pages k t ≡ take (k * page_size) t.key_value_pairs
  pages-take zero t h = refl
  pages-take (suc k) t h =
      let e : k * page_size + page_size ≡ suc k * page_size = omega arith in
      let before = pages-take k t (omega arith) in
      let page = page_at-take k t (omega arith) in
      ap (λ ps. ps ++ page_at k t) before
      ∙ (ap (λ ps. take (k * page_size) t.key_value_pairs ++ ps) page
          ∙ (take-add (k * page_size) page_size t.key_value_pairs
              ∙ ap (λ n. take n t.key_value_pairs) e))

  -- Where `k` pages have room for all the pairs, the first `k` pages together show each pair, once
  -- and in their order.
  pub pages_complete :
      (k : ℕ) (t : EnhancedRedisTui W)
      → k * page_size < 2 ^ 64
      → length t.key_value_pairs ≤ k * page_size
      → pages k t ≡ t.key_value_pairs
  pages_complete k t h room = pages-take k t h ∙ take-all (k * page_size) t.key_value_pairs room
