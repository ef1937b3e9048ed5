-- ===== src/Format/Age.antt =====
-- `formatRelativeAge` of web/src/lib/format.ts. `now` is the current time in whole seconds.
use ddsds.Common.{
  ℕ, ◌+◌, ◌-◌, ◌*◌, ◌/◌, ◌≤◌, ◌<◌, String, Option, none, some, [], ◌∷◌, ◌≡◌, refl, ◌==◌, ltb, leb,
  if◌then◌else◌, arith, Bool-cases, inl, inr, false,
}
use ddsds.I18n.Template.{Argument}
use ddsds.I18n.State.{Messages, translate}

unfoldable pub age_text : Messages → ℕ → String
age_text m diff =
    if leb diff 5
    then translate m "dashboard" "justUpdated" []
    else if ltb diff 60
    then translate m "time" "secondsAgo" (Argument.count diff ∷ [])
    else if ltb (diff / 60) 60
    then translate m "time" "minutesAgo" (Argument.count (diff / 60) ∷ [])
    else translate m "time" "hoursAgo" (Argument.count (diff / 60 / 60) ∷ [])

-- No timestamp, or zero, gives a dash; a time in the future counts as now.
unfoldable pub format_relative_age : Messages → ℕ → Option ℕ → String
unfolding age_text
format_relative_age m now none = "—"
format_relative_age m now (some timestamp) =
    if timestamp == 0 then "—" else age_text m (now - timestamp)

-- The four forms of an age of `diff` seconds: each number is the age rounded down to its unit, and
-- seconds and minutes stay below sixty.
pub data IsAge (m : Messages) (diff : ℕ) (s : String) : Type 0 where
  just_now : diff ≤ 5 → s ≡ translate m "dashboard" "justUpdated" [] → IsAge m diff s
  seconds :
      5 < diff
      → diff < 60
      → s ≡ translate m "time" "secondsAgo" (Argument.count diff ∷ [])
      → IsAge m diff s
  minutes :
      (n : ℕ)
      → 1 ≤ n
      → n < 60
      → n * 60 ≤ diff
      → diff < n * 60 + 60
      → s ≡ translate m "time" "minutesAgo" (Argument.count n ∷ [])
      → IsAge m diff s
  hours :
      (n : ℕ)
      → 1 ≤ n
      → n * 3600 ≤ diff
      → diff < n * 3600 + 3600
      → s ≡ translate m "time" "hoursAgo" (Argument.count n ∷ [])
      → IsAge m diff s

age_text-IsAge : (m : Messages) (diff : ℕ) → IsAge m diff (age_text m diff)
unfolding age_text
age_text-IsAge m diff = elim (Bool-cases (leb diff 5)) [
  | inl a ↦ just_now (ground arith) (rw a refl)
  | inr a ↦ elim (Bool-cases (ltb diff 60)) [
    | inl b ↦ seconds (ground arith) (ground arith) (rw (a, b) refl)
    | inr b ↦ elim (Bool-cases (ltb (diff / 60) 60)) [
      | inl c ↦
          minutes (diff / 60) (ground arith) (ground arith) (omega arith) (omega arith)
            (rw (a, b, c) refl)
      | inr c ↦
          hours (diff / 60 / 60) (ground arith) (omega arith) (omega arith) (rw (a, b, c) refl)
    ]
  ]
]

-- The age of any timestamp but zero is told as one of the four forms, of the seconds that have passed
-- since, or of none if the timestamp lies ahead.
pub format_relative_age-IsAge :
    (m : Messages) (now timestamp : ℕ)
    → 0 < timestamp
    → IsAge m (now - timestamp) (format_relative_age m now (some timestamp))
unfolding format_relative_age
format_relative_age-IsAge m now timestamp h =
    let e : (timestamp == 0) ≡ false = ground arith in rw e (age_text-IsAge m (now - timestamp))
