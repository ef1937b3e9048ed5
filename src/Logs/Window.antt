-- ===== src/Logs/Window.antt =====
-- The live list of web/src/hooks/useLogs.ts over a run of live entries.
use ddsds.Common.{
  ℕ, zero, suc, ◌+◌, ◌-◌, ◌≤◌, ◌≡◌, refl, sym, ap, ◌∙◌, String, true, false, List, [], ◌∷◌, ◌++◌,
  append_assoc, append-nil, filter, length, length-append, length-drop, drop, drop-drop, arith,
  Bool-cases, inl, inr, filter-cons_true, filter-cons_false,
}
use ddsds.Logs.{
  LogEntry, LogFilters, LiveLogs, last_entries, kept_logs, accepts, receive, change_filters,
}

drop-append {ℓ} :
    {A : Type ℓ} (n : ℕ) (xs ys : List A) → n ≤ length xs → drop n (xs ++ ys) ≡ drop n xs ++ ys
drop-append zero xs ys h = refl
drop-append (suc n) [] ys h = elim h [ ]
drop-append (suc n) (x ∷ xs) ys h = drop-append n xs ys (omega arith)

-- To keep the newest `n` of a list that grows at its end, the newest `n` so far are enough.
last_entries-append :
    (n : ℕ) (xs : List LogEntry) (e : LogEntry)
    → 1 ≤ n
    → last_entries n (last_entries n xs ++ e ∷ []) ≡ last_entries n (xs ++ e ∷ [])
last_entries-append n xs e pos = go (length xs - n) refl
  where
    go :
        (k : ℕ)
        → length xs - n ≡ k
        → last_entries n (drop k xs ++ e ∷ []) ≡ last_entries n (xs ++ e ∷ [])
    go zero h = refl
    go (suc k) h =
        let l : length (drop (suc k) xs ++ e ∷ []) - n ≡ 1 =
          omega (arith, length-append {0} (drop (suc k) xs) (e ∷ []), length-drop {0} (suc k) xs) in
        let r : length (xs ++ e ∷ []) - n ≡ suc k + 1 =
          omega (arith, length-append {0} xs (e ∷ [])) in
        rw (l, r)
          (rw (← drop-append (suc k) xs (e ∷ []) (omega arith))
            (drop-drop 1 (suc k) (xs ++ e ∷ [])))

module _ (to_lower : String → String) where
  unfoldable pub receive_all : List LogEntry → LiveLogs → LiveLogs
  receive_all [] s = s
  receive_all (e ∷ es) s = receive_all es (receive to_lower e s)

  receive_accepted :
      (e : LogEntry) (s : LiveLogs)
      → accepts to_lower s.filters e ≡ true
      → receive to_lower e s ≡ record s { entries = last_entries kept_logs (s.entries ++ e ∷ []) }
  unfolding receive
  receive_accepted e s h = rw h refl

  receive_refused :
      (e : LogEntry) (s : LiveLogs)
      → accepts to_lower s.filters e ≡ false
      → receive to_lower e s ≡ s
  unfolding receive
  receive_refused e s h = rw h refl

  receive_all-window :
      (es : List LogEntry) (s : LiveLogs) (history : List LogEntry)
      → s.entries ≡ last_entries kept_logs history
      → (receive_all es s).entries
        ≡ last_entries kept_logs (history ++ filter (accepts to_lower s.filters) es)
  unfolding receive_all
  receive_all-window [] s history h = rw append-nil h
  receive_all-window (e ∷ es) s history h = elim (Bool-cases (accepts to_lower s.filters e)) [
    | inl y ↦
        ap (λ z. (receive_all es z).entries) (receive_accepted e s y)
        ∙ receive_all-window es
            (record s { entries = last_entries kept_logs (s.entries ++ e ∷ []) })
            (history ++ e ∷ []) (rw h (last_entries-append kept_logs history e (omega arith)))
        ∙ ap (last_entries kept_logs) (
            append_assoc history (e ∷ []) (filter (accepts to_lower s.filters) es)
            ∙ ap (λ z. history ++ z) (sym (filter-cons_true (accepts to_lower s.filters) e es y)))
    | inr n ↦
        ap (λ z. (receive_all es z).entries) (receive_refused e s n)
        ∙ receive_all-window es s history h
        ∙ ap (λ z. last_entries kept_logs (history ++ z))
            (sym (filter-cons_false (accepts to_lower s.filters) e es n))
  ]

  -- After a change of the filters and then any live entries, the list holds exactly the last five
  -- hundred of the entries that the filters accept, in the order of arrival.
  pub receive_all-change_filters :
      (f : LogFilters) (s : LiveLogs) (es : List LogEntry)
      → (receive_all es (change_filters f s)).entries
        ≡ last_entries kept_logs (filter (accepts to_lower f) es)
  unfolding change_filters
  receive_all-change_filters f s es =
      receive_all-window es (record { filters = f; entries = [] }) [] refl
