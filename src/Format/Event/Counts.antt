-- ===== src/Format/Event/Counts.antt =====
-- The counts in the descriptions that web/src/lib/format.ts reads.
use ddsds.Common.{
  ℕ, ◌≤◌, String, Bool, true, false, ◌&&◌, List, [], ◌∷◌, ◌++◌, none, some, ◌≡◌, refl, ap, ◌∙◌,
  arith,
}
use ddsds.Text.{append, codes, decimal, is_prefix_of, is_space, codes-append}
use ddsds.I18n.Template.{count}
use ddsds.I18n.State.{Messages, ◌>>=◌}
use ddsds.Format.Labels.{security}
use ddsds.Format.Event.{
  is_digit, starts_digit, eat_digits, eat_text, eat_spaces, skip_spaces, match_counts, after_number,
  finish, CountPattern, count_patterns, counted, chained, chain_patterns, ends_with, starts_with,
  format_event_description, format_blocked_reason,
}
use ddsds.Format.Event.Digits.{starts_digit-decimal, eat_digits-decimal}

-- The text of a description with two counts.
abbrev pub description_of : CountPattern → (n w : ℕ) → String
description_of p n w =
    append (decimal n)
      (append p.mark (append " " (append p.words_between (append " " (append (decimal w) "s")))))

abbrev after_first : CountPattern → ℕ → List ℕ
after_first p w =
    codes p.mark ++ (b' ' ∷ (codes p.words_between ++ (b' ' ∷ (codes (decimal w) ++ (b's' ∷ [])))))

codes-description_of :
    (p : CountPattern) (n w : ℕ)
    → codes (description_of p n w) ≡ codes (decimal n) ++ after_first p w
codes-description_of p n w = simp codes-append refl

-- Which of the patterns.
pub data Kind : Type 0 where
  port_scan ssh_threshold ssh_invalid_users web_login : Kind

abbrev pub pattern_of : Kind → CountPattern
pattern_of port_scan = record {
  mark = "";
  words_between = "unique destination ports probed in";
  key = "eventPortScanDescription";
}
pattern_of ssh_threshold = record {
  mark = "+";
  words_between = "failed SSH attempts in";
  key = "eventSshBruteforceDescription";
}
pattern_of ssh_invalid_users = record {
  mark = "+";
  words_between = "invalid SSH users in";
  key = "eventSshUserEnumDescription";
}
pattern_of web_login = record {
  mark = "+";
  words_between = "repeated web login attempts in";
  key = "eventWebLoginBruteforceDescription";
}

match_counts-eat_digits :
    (mark text s t : List ℕ) (n : ℕ)
    → eat_digits s ≡ some (n, t)
    → match_counts mark text s ≡ after_number mark text (n, t)
unfolding match_counts
match_counts-eat_digits mark text s t n e = rw e refl

counted-none :
    (to_double : ℕ → ℕ) (m : Messages) (p : CountPattern) (ps : List CountPattern) (s : List ℕ)
    (otherwise : String)
    → match_counts (codes p.mark) (codes p.words_between) s ≡ none
    → counted to_double m (p ∷ ps) s otherwise ≡ counted to_double m ps s otherwise
unfolding counted
counted-none to_double m p ps s otherwise e = rw (e, counted) refl

counted-some :
    (to_double : ℕ → ℕ) (m : Messages) (p : CountPattern) (ps : List CountPattern) (s : List ℕ)
    (otherwise : String) (n w : ℕ)
    → match_counts (codes p.mark) (codes p.words_between) s ≡ some (n, w)
    → counted to_double m (p ∷ ps) s otherwise
      ≡ security m p.key (count (to_double n) ∷ count (to_double w) ∷ [])
unfolding counted
counted-some to_double m p ps s otherwise n w e = rw (e, counted) refl

digit_no_space : (c : ℕ) → is_digit c ≡ true → is_space c ≡ false
unfolding is_digit is_space
digit_no_space c h = ground arith

skip_spaces-starts_digit : (s : List ℕ) → starts_digit s ≡ true → skip_spaces s ≡ s
unfolding starts_digit skip_spaces
skip_spaces-starts_digit [] h = absurd (cc)
skip_spaces-starts_digit (c ∷ s) h = rw (digit_no_space c h, skip_spaces) refl

-- A pattern against a text of its own, and of another kind.
finished :
    (n w : ℕ)
    → (eat_digits (skip_spaces (codes (decimal w) ++ (b's' ∷ []))) >>= finish n) ≡ some (n, w)
unfolding finish eat_text starts_digit is_digit
finished n w =
    rw
      (
        skip_spaces-starts_digit (codes (decimal w) ++ (b's' ∷ []))
            (starts_digit-decimal w (b's' ∷ [])),
        eat_digits-decimal w (b's' ∷ []) refl,
      )
      refl

own_pattern :
    (k : Kind) (n w : ℕ)
    → after_number
        (codes (pattern_of k).mark)
        (codes (pattern_of k).words_between)
        (n, after_first (pattern_of k) w)
      ≡ some (n, w)
unfolding after_number eat_text eat_spaces skip_spaces is_space
own_pattern port_scan n w = finished n w
own_pattern ssh_threshold n w = finished n w
own_pattern ssh_invalid_users n w = finished n w
own_pattern web_login n w = finished n w

after_first-starts_digit : (k : Kind) (w : ℕ) → starts_digit (after_first (pattern_of k) w) ≡ false
unfolding starts_digit is_digit
after_first-starts_digit port_scan w = refl
after_first-starts_digit ssh_threshold w = refl
after_first-starts_digit ssh_invalid_users w = refl
after_first-starts_digit web_login w = refl

-- The text of one kind against the pattern of another.
first_read :
    (j k : Kind) (n w : ℕ)
    → match_counts
        (codes (pattern_of j).mark)
        (codes (pattern_of j).words_between)
        (codes (decimal n) ++ after_first (pattern_of k) w)
      ≡ after_number
          (codes (pattern_of j).mark)
          (codes (pattern_of j).words_between)
          (n, after_first (pattern_of k) w)
first_read j k n w =
    match_counts-eat_digits (codes (pattern_of j).mark) (codes (pattern_of j).words_between)
      (codes (decimal n) ++ after_first (pattern_of k) w) (after_first (pattern_of k) w) n
      (eat_digits-decimal n (after_first (pattern_of k) w) (after_first-starts_digit k w))

skipped :
    (to_double : ℕ → ℕ) (m : Messages) (j k : Kind) (ps : List CountPattern) (n w : ℕ)
    (otherwise : String)
    → after_number
        (codes (pattern_of j).mark)
        (codes (pattern_of j).words_between)
        (n, after_first (pattern_of k) w)
      ≡ none
    → counted to_double m
        (pattern_of j ∷ ps)
        (codes (decimal n) ++ after_first (pattern_of k) w)
        otherwise
      ≡ counted to_double m ps (codes (decimal n) ++ after_first (pattern_of k) w) otherwise
skipped to_double m j k ps n w otherwise e =
    counted-none to_double m (pattern_of j) ps (codes (decimal n) ++ after_first (pattern_of k) w)
      otherwise (first_read j k n w ∙ e)

taken :
    (to_double : ℕ → ℕ) (m : Messages) (k : Kind) (ps : List CountPattern) (n w : ℕ)
    (otherwise : String)
    → counted to_double m
        (pattern_of k ∷ ps)
        (codes (decimal n) ++ after_first (pattern_of k) w)
        otherwise
      ≡ security m (pattern_of k).key (count (to_double n) ∷ count (to_double w) ∷ [])
taken to_double m k ps n w otherwise =
    counted-some to_double m (pattern_of k) ps (codes (decimal n) ++ after_first (pattern_of k) w)
      otherwise n w (first_read k k n w ∙ own_pattern k n w)

counted_kind :
    (to_double : ℕ → ℕ) (m : Messages) (k : Kind) (n w : ℕ) (otherwise : String)
    → counted to_double m count_patterns
        (codes (decimal n) ++ after_first (pattern_of k) w)
        otherwise
      ≡ security m (pattern_of k).key (count (to_double n) ∷ count (to_double w) ∷ [])
unfolding count_patterns after_number eat_text eat_spaces skip_spaces is_space
counted_kind to_double m port_scan n w otherwise = taken to_double m port_scan _ n w otherwise
counted_kind to_double m ssh_threshold n w otherwise =
    skipped to_double m port_scan ssh_threshold _ n w otherwise refl
    ∙ taken to_double m ssh_threshold _ n w otherwise
counted_kind to_double m ssh_invalid_users n w otherwise =
    skipped to_double m port_scan ssh_invalid_users _ n w otherwise refl
    ∙ skipped to_double m ssh_threshold ssh_invalid_users _ n w otherwise refl
    ∙ taken to_double m ssh_invalid_users _ n w otherwise
counted_kind to_double m web_login n w otherwise =
    skipped to_double m port_scan web_login _ n w otherwise refl
    ∙ skipped to_double m ssh_threshold web_login _ n w otherwise refl
    ∙ skipped to_double m ssh_invalid_users web_login _ n w otherwise refl
    ∙ taken to_double m web_login _ n w otherwise

no_prefix :
    (c : ℕ) (ps s : List ℕ)
    → is_digit c ≡ false
    → starts_digit s ≡ true
    → is_prefix_of (c ∷ ps) s ≡ false
unfolding is_prefix_of starts_digit is_digit
no_prefix c ps [] h k = refl
no_prefix c ps (d ∷ s) h k = ground arith

and_false : (b : Bool) → (b && false) ≡ false
and_false true = refl
and_false false = refl

-- A description without a type, with none of the three prefixes.
without_type :
    (to_lower_case : String → String) (to_double : ℕ → ℕ) (m : Messages) (description : String)
    → starts_with description "ML-detected: " ≡ false
    → starts_with description "Rule+ML confirmed: " ≡ false
    → starts_with description "ML anomaly detected" ≡ false
    → format_event_description to_lower_case to_double m description none
      ≡ counted to_double m count_patterns
          (codes description)
          (chained m chain_patterns description)
unfolding format_event_description
without_type to_lower_case to_double m description h₁ h₂ h₃ =
    rw (h₁, h₂, h₃, and_false (ends_with (codes description) (codes "pattern detected"))) refl

-- Numbers up to 2 ^ 53 are doubles. For such numbers, a blocked address whose reason tells a count in
-- a number of seconds, in one of the four forms of the server, is shown with the message of its form
-- and with these two numbers, in the current language.
pub format_blocked_reason-description_of :
    (to_lower_case : String → String) (to_double : ℕ → ℕ)
    (exact : (i : ℕ) → i ≤ 9007199254740992 → to_double i ≡ i) (m : Messages) (k : Kind) (n w : ℕ)
    → n ≤ 9007199254740992
    → w ≤ 9007199254740992
    → format_blocked_reason to_lower_case to_double m (description_of (pattern_of k) n w)
      ≡ security m (pattern_of k).key (count n ∷ count w ∷ [])
unfolding format_blocked_reason is_digit
format_blocked_reason-description_of to_lower_case to_double exact m k n w hn hw =
    let description = description_of (pattern_of k) n w in
    let all_codes = codes-description_of (pattern_of k) n w in
    let first : starts_digit (codes description) ≡ true =
      ap starts_digit all_codes ∙ starts_digit-decimal n (after_first (pattern_of k) w) in
    let prefixes : (starts_with description "ML-detected: " ≡ false)
        × (starts_with description "Rule+ML confirmed: " ≡ false)
        × (starts_with description "ML anomaly detected" ≡ false) =
      (
        no_prefix b'M' (codes "L-detected: ") (codes description) refl first,
        no_prefix b'R' (codes "ule+ML confirmed: ") (codes description) refl first,
        no_prefix b'M' (codes "L anomaly detected") (codes description) refl first,
      ) in
    without_type to_lower_case to_double m description prefixes.0 prefixes.1 prefixes.2
    ∙ ap (λ s. counted to_double m count_patterns s (chained m chain_patterns description))
        all_codes
    ∙ counted_kind to_double m k n w (chained m chain_patterns description)
    ∙ ap (λ i. security m (pattern_of k).key (count i ∷ count (to_double w) ∷ [])) (exact n hn)
    ∙ ap (λ i. security m (pattern_of k).key (count n ∷ count i ∷ [])) (exact w hw)
