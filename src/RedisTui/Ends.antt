-- ===== src/RedisTui/Ends.antt =====
-- clients/tui/redis_tui.cpp: when the main menu ends, and when it does not.
use minimum_redis.Base.{
  ℕ, zero, suc, Bool, true, [], ◌++◌, Bytes, text, if◌then◌else◌, ◌≡◌, refl, sym, subst, ap, ◌∙◌,
  append-nil, append_assoc, Bool-cases, inl, inr,
}
use minimum_redis.Base.Number.{to_string_ℤ}
use minimum_redis.RedisClient.{RedisClient}
use minimum_redis.RedisTui.{
  EnhancedRedisTui, getline, print, read_line, replicate, display_header, display_menu,
}
use minimum_redis.RedisTui.Monitor.{Ended, and_then}
use minimum_redis.RedisTui.Menu.{Platform, on_choice, menu_round, menu_loop}

-- The screen of a round of the menu.
abbrev header_text : RedisClient → Bytes
header_text c =
    text "\n======================================================================\n"
    ++ (text "MinimalRedis Unified TUI Client v2.0\nConnected: "
        ++ ((if c.connected then text "[YES] " else text "[NO] ")
            ++ (c.host
                ++ (text ":"
                    ++ (to_string_ℤ c.port
                        ++ text
                            "\n======================================================================\n")))))

abbrev choices_text : Bytes
choices_text =
    text "\nMAIN MENU\n1. Command Interface  - Execute Redis commands\n"
    ++ (text "2. Data Browser       - View and browse keys\n"
        ++ (text "3. Server Monitor     - Real-time server stats\n"
            ++ (text "4. Connection         - Connect/Disconnect\n"
                ++ (text "5. Command History    - View previous commands\n"
                    ++ text "0. Exit\n\nChoose option (0-5): "))))

abbrev pub menu_text : RedisClient → Bytes
menu_text c = header_text c ++ choices_text

abbrev pub copies : ℕ → Bytes → Bytes
copies zero s = []
copies (suc f) s = s ++ copies f s

if-true : {A : Type 0} {b : Bool} (x y : A) → b ≡ true → (if b then x else y) ≡ x
if-true x y h = rw h refl

module _ {W : Type 0} where
  -- The line that was read, and the rest of the input.
  abbrev reads : EnhancedRedisTui W → Bytes × Bytes → EnhancedRedisTui W × Bytes
  reads t (line, rest) = (record t { input = rest }, line)

  menu_round-empty :
      (p : Platform W) (t : EnhancedRedisTui W)
      → t.input ≡ []
      → menu_round p t ≡ Ended.returned (display_menu t)
  unfolding menu_round read_line getline display_menu display_header print
  menu_round-empty p t h =
      subst
        (λ s.
          on_choice p (reads (display_menu t) (getline s))
          ≡ Ended.returned (record (display_menu t) { input = s }))
        (sym h) refl

  -- The state behind `f` rounds that only print the menu.
  abbrev pub shown : ℕ → EnhancedRedisTui W → EnhancedRedisTui W
  shown f t = record t { printed = t.printed ++ copies f (menu_text t.client) }

  display_header-printed :
      (t : EnhancedRedisTui W)
      → display_header t ≡ record t { printed = t.printed ++ header_text t.client }
  unfolding display_header print text replicate
  display_header-printed t = elim (Bool-cases t.client.connected) [
    | inl e ↦ rw e refl
    | inr e ↦ rw e refl
  ]

  display_menu-printed :
      (t : EnhancedRedisTui W)
      → display_menu t
        ≡ record (display_header t) { printed = (display_header t).printed ++ choices_text }
  unfolding display_menu print text
  display_menu-printed t = refl

  display_menu-shown : (t : EnhancedRedisTui W) → display_menu t ≡ shown 1 t
  display_menu-shown t =
      let m = menu_text t.client in
      let choices : EnhancedRedisTui W → EnhancedRedisTui W =
        λ u. record u { printed = u.printed ++ choices_text } in
      display_menu-printed t
      ∙ (ap choices (display_header-printed t)
          ∙ ap (λ s. record t { printed = s })
              (append_assoc t.printed (header_text t.client) choices_text
                ∙ ap (λ s. t.printed ++ s) (sym (append-nil m))))

  shown-shown : (f : ℕ) (t : EnhancedRedisTui W) → shown f (shown 1 t) ≡ shown (suc f) t
  shown-shown f t =
      let m = menu_text t.client in
      ap (λ s. record t { printed = s })
        (append_assoc t.printed (m ++ []) (copies f m)
          ∙ ap (λ s. t.printed ++ (s ++ copies f m)) (append-nil m))

  -- At the end of the input the menu never ends: when any number of rounds have been made, each has
  -- printed the header and the menu, and nothing else has changed.
  pub menu_loop-forever :
      (f : ℕ) (p : Platform W) (t : EnhancedRedisTui W)
      → t.running ≡ true
      → t.input ≡ []
      → menu_loop f p t
        ≡ Ended.unfinished (record t { printed = t.printed ++ copies f (menu_text t.client) })
  unfolding menu_loop
  menu_loop-forever zero p t runs empty =
      ap (λ s. Ended.unfinished (record t { printed = s })) (sym (append-nil t.printed))
  menu_loop-forever (suc f) p t runs empty =
      if-true _ _ runs
      ∙ (ap (λ r. and_then r (menu_loop f p))
            (menu_round-empty p t empty ∙ ap Ended.returned (display_menu-shown t))
          ∙ (menu_loop-forever f p (shown 1 t) runs empty ∙ ap Ended.unfinished (shown-shown f t)))
