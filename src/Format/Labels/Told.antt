-- ===== src/Format/Labels/Told.antt =====
-- The messages that labels and ages of web/src/lib/format.ts ask for.
use ddsds.Common.{
  ℕ, ◌-◌, String, true, [], ◌∷◌, Option, none, some, ◌≡◌, ◌⊎◌, refl, inl, inr, all, ◌==◌,
  Bool-cases,
}
use ddsds.Text.{truthy, trim}
use ddsds.Types.{Confidence, confidence_name}
use ddsds.I18n.Template.{count}
use ddsds.I18n.State.{Locale, dictionaries, Messages}
use ddsds.I18n.Told.{IsTold, IsTold-translate, IsTold-if, is_asked_in_both, message_found}
use ddsds.Format.Labels.{
  Table, security, key_of, signals, explanations, format_signal_source, format_event_explanation,
  format_event_source, format_confidence, severity_or_value,
}
use ddsds.Format.Labels.Keys.{all-key_of}
use ddsds.Format.Age.{format_relative_age, age_text}

module _ (m : Messages) (l : Locale) (e : m.t ≡ dictionaries l) where
  key_of-IsTold :
      (table : Table) (fallback value : String)
      → all (λ entry. is_asked_in_both "security" entry.1 []) table ≡ true
      → is_asked_in_both "security" fallback [] ≡ true
      → IsTold m (security m (key_of table fallback value) [])
  key_of-IsTold table fallback value h k =
      IsTold-translate l e "security" (key_of table fallback value) []
        (all-key_of (λ key. is_asked_in_both "security" key []) table fallback value h k)

  pub signal_source-IsTold : (value : Option String) → IsTold m (format_signal_source m value)
  unfolding format_signal_source is_asked_in_both signals
  signal_source-IsTold value = key_of-IsTold signals "signalGeneric" _ refl refl

  pub explanation-IsTold : (code : Option String) → IsTold m (format_event_explanation m code)
  unfolding format_event_explanation is_asked_in_both explanations
  explanation-IsTold none = IsTold-translate l e "security" "explanationGeneric" [] refl
  explanation-IsTold (some code) = key_of-IsTold explanations "explanationGeneric" code refl refl

  pub source-either :
      (ip : String)
      → IsTold m (format_event_source m (some ip)) ⊎ (format_event_source m (some ip) ≡ trim ip)
  unfolding format_event_source is_asked_in_both
  source-either ip = elim (Bool-cases (truthy (trim ip))) [
    | inl h ↦ inr (rw h refl)
    | inr h ↦ inl (rw h (IsTold-translate l e "security" "sourceHost" [] refl))
  ]

  severity-either :
      (value : String)
      → is_asked_in_both "severity" value [] ≡ true
      → truthy value ≡ true
      → IsTold m (format_confidence m (some value)) ⊎ (format_confidence m (some value) ≡ "—")
  unfolding format_confidence severity_or_value
  severity-either value asked t =
      let found = message_found m l e "severity" value [] asked in
      inl (rw (t, found.1, severity_or_value) (IsTold-translate l e "severity" value [] asked))

  -- The three names of a confidence.
  pub confidence-either :
      (c : Option Confidence)
      → IsTold m (format_confidence m (confidence_name c))
        ⊎ (format_confidence m (confidence_name c) ≡ "—")
  unfolding is_asked_in_both format_confidence
  confidence-either none = inr refl
  confidence-either (some Confidence.low) = severity-either "low" refl refl
  confidence-either (some Confidence.medium) = severity-either "medium" refl refl
  confidence-either (some Confidence.high) = severity-either "high" refl refl

  age_text-IsTold : (diff : ℕ) → IsTold m (age_text m diff)
  unfolding age_text is_asked_in_both
  age_text-IsTold diff = IsTold-if _ (IsTold-translate l e "dashboard" "justUpdated" [] refl) (
      IsTold-if _ (IsTold-translate l e "time" "secondsAgo" (count _ ∷ []) refl) (
        IsTold-if _ (IsTold-translate l e "time" "minutesAgo" (count _ ∷ []) refl)
          (IsTold-translate l e "time" "hoursAgo" (count _ ∷ []) refl)))

  pub age-either :
      (now : ℕ) (timestamp : Option ℕ)
      → IsTold m (format_relative_age m now timestamp) ⊎ (format_relative_age m now timestamp ≡ "—")
  unfolding format_relative_age
  age-either now none = inr refl
  age-either now (some timestamp) = elim (Bool-cases (timestamp == 0)) [
    | inl h ↦ inr (rw h refl)
    | inr h ↦ inl (rw h (age_text-IsTold (now - timestamp)))
  ]
