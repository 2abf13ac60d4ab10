-- ===== src/RedisTui/Histories.antt =====
-- clients/tui/redis_tui.cpp: which commands the client remembers.
use minimum_redis.Base.{
  ℕ, zero, suc, ◌+◌, ◌-◌, ◌≤◌, ◌<◌, Bool, true, false, List, [], ◌∷◌, ◌++◌, Bytes, text, length,
  drop, length-append, length-drop, drop-append_le, append-nil, append_assoc, ltb, ltb-eq_false,
  lt→ltb, inl, inr, ◌⊎◌, ◌≡◌, refl, sym, ap, ◌∙◌, arith,
}
use minimum_redis.RedisClient.{Link}
use minimum_redis.RedisTui.{
  EnhancedRedisTui, max_history_cmds, remember, erase_first, print, read_byte, client_send,
  client_response, show_response, after_send, execute,
}
use minimum_redis.RedisTui.Kept.{client_send-map, client_response-map}

-- The last entries of a list, `max` at most.
abbrev pub last_of : {A : Type 0} → ℕ → List A → List A
last_of max xs = drop (length xs - max) xs

erase_first-drop : {A : Type 0} (n : ℕ) (xs : List A) → erase_first (drop n xs) ≡ drop (suc n) xs
erase_first-drop zero [] = refl
erase_first-drop zero (x ∷ xs) = refl
erase_first-drop (suc n) [] = refl
erase_first-drop (suc n) (x ∷ xs) = erase_first-drop n xs

le-or-lt : (a b : ℕ) → (a < b) ⊎ (b ≤ a)
le-or-lt a b = ground arith

-- Remembering one entry more keeps the last ones.
pub remember-last_of :
    {A : Type 0} (max : ℕ) (a : A) (xs : List A)
    → 1 ≤ max
    → remember max a (last_of max xs) ≡ last_of max (xs ++ (a ∷ []))
unfolding remember
remember-last_of max a xs some_room =
    let more : length (xs ++ (a ∷ [])) ≡ length xs + 1 = length-append xs (a ∷ []) in
    elim (le-or-lt (length xs) max) [
      | inl less ↦
          let all : length xs - max ≡ 0 = omega arith in
          let all' : length (xs ++ (a ∷ [])) - max ≡ 0 = omega arith in
          let fits : ltb max (length (xs ++ (a ∷ []))) ≡ false =
            ltb-eq_false max (length (xs ++ (a ∷ []))) (omega arith) in
          rw (all, fits, all') refl
      | inr full ↦
          let n = length xs - max in
          let le : n ≤ length xs = omega arith in
          let joined : drop n xs ++ (a ∷ []) ≡ drop n (xs ++ (a ∷ [])) =
            sym (drop-append_le n xs (a ∷ []) le) in
          let size : length (drop n (xs ++ (a ∷ []))) ≡ suc max =
            omega (arith, length-drop n (xs ++ (a ∷ []))) in
          let over : ltb max (suc max) ≡ true = lt→ltb max (suc max) (omega arith) in
          let next : suc n ≡ length (xs ++ (a ∷ [])) - max = omega arith in
          rw (joined, size, over)
            (erase_first-drop n (xs ++ (a ∷ [])) ∙ ap (λ k. drop k (xs ++ (a ∷ []))) next)
    ]

module _ {W : Type 0} where
  show_response-history :
      (x : EnhancedRedisTui W × Bytes) → (show_response x).command_history ≡ x.0.command_history
  unfolding print
  show_response-history (t, []) = refl
  show_response-history (t, c ∷ s) = refl

  after_send-history :
      (link : Link W) (x : EnhancedRedisTui W × Bool)
      → (after_send link x).command_history ≡ x.0.command_history
  unfolding print read_byte
  after_send-history link (t, false) = refl
  after_send-history link (t, true) =
      show_response-history (client_response link t)
      ∙ client_response-map (λ u. u.command_history) (λ t c w. refl) link t

  execute-history :
      (link : Link W) (cmd : Bytes) (t : EnhancedRedisTui W)
      → (execute link cmd t).command_history ≡ remember max_history_cmds cmd t.command_history
  unfolding execute print
  execute-history link cmd t =
      let u = record t { command_history = remember max_history_cmds cmd t.command_history } in
      let u = print (text "\n[EXEC]  Executing: " ++ (cmd ++ text "\n")) u in
      after_send-history link (client_send link cmd u)
      ∙ client_send-map (λ v. v.command_history) (λ t w. refl) link cmd u

  -- Commands that are given one after the other.
  abbrev pub execute_all : Link W → List Bytes → EnhancedRedisTui W → EnhancedRedisTui W
  execute_all link [] t = t
  execute_all link (cmd ∷ cmds) t = execute_all link cmds (execute link cmd t)

  execute_all-last :
      (link : Link W) (cmds before : List Bytes) (t : EnhancedRedisTui W)
      → t.command_history ≡ last_of max_history_cmds before
      → (execute_all link cmds t).command_history ≡ last_of max_history_cmds (before ++ cmds)
  execute_all-last link [] before t h = h ∙ ap (last_of max_history_cmds) (sym (append-nil before))
  execute_all-last link (cmd ∷ cmds) before t h =
      let one =
        execute-history link cmd t
        ∙ (ap (remember max_history_cmds cmd) h
            ∙ remember-last_of max_history_cmds cmd before (omega arith)) in
      execute_all-last link cmds (before ++ (cmd ∷ [])) (execute link cmd t) one
      ∙ ap (last_of max_history_cmds) (append_assoc before (cmd ∷ []) cmds)

  -- The history of a client that has at most 100 commands in it, when some more were executed, is
  -- the last 100 of all of them, in their order, whatever the server replies.
  pub execute_all-history :
      (link : Link W) (cmds : List Bytes) (t : EnhancedRedisTui W)
      → length t.command_history ≤ max_history_cmds
      → (execute_all link cmds t).command_history
        ≡ last_of max_history_cmds (t.command_history ++ cmds)
  execute_all-history link cmds t h =
      let all : length t.command_history - max_history_cmds ≡ 0 = omega arith in
      execute_all-last link cmds t.command_history t (ap (λ n. drop n t.command_history) (sym all))
