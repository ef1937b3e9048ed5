-- ===== src/Format/Bytes.antt =====
-- `formatBytes` of web/src/lib/format.ts, for whole numbers of bytes. A double divided by 1024 is
-- exact, so the loop's `display` is the fraction `value / 1024 ^ unit_index`. The runtime's
-- `Intl.NumberFormat` is a parameter: the language tag, a fraction, the most digits after the point. The
-- rounding is done there, after the unit is chosen.
use ddsds.Common.{
  ℕ, zero, suc, ◌+◌, ◌*◌, ◌^◌, ◌≤◌, ◌<◌, String, Bool, true, false, ◌&&◌, ◌≡◌, ◌⊎◌, [], ltb, leb,
  if◌then◌else◌, arith, refl,
}
use ddsds.Text.{append}
use ddsds.I18n.State.{Messages, get_locale_tag, translate}

-- One round while `display >= 1024 && unitIndex < 3`.
unfoldable pub unit_loop : ℕ → ℕ → ℕ → ℕ
unit_loop zero value unit_index = unit_index
unit_loop (suc fuel) value unit_index =
    elim (leb (1024 * 1024 ^ unit_index) value && ltb unit_index 3) [
      | true ↦ unit_loop fuel value (unit_index + 1)
      | false ↦ unit_index
    ]

-- The index grows with each round and stops at 3, so four rounds are enough.
unfoldable pub unit_index_of : ℕ → ℕ
unfolding unit_loop
unit_index_of value = unit_loop 4 value 0

unfoldable pub unit_key : ℕ → String
unit_key unit_index =
    if leb unit_index 0
    then "byte"
    else if leb unit_index 1
    then "kilobyte"
    else if leb unit_index 2
    then "megabyte"
    else "gigabyte"

unfoldable pub format_bytes :
    (String → ℕ → ℕ → ℕ → String) → Messages → ℕ → (compact per_second : Bool) → String
format_bytes number_format m value compact per_second =
    let unit_index = unit_index_of value in
    let digits : ℕ = if compact && ltb 0 unit_index then 1 else 0 in
    let suffix = if per_second then translate m "units" "bytesPerSecond" [] else "" in
    append (number_format (get_locale_tag m.current_locale) value (1024 ^ unit_index) digits)
      (append " " (append (translate m "units" (unit_key unit_index) []) suffix))

-- Before it is rounded, the number of the unit (the bytes over a power of 1024) is below 1024 unless
-- the unit is the gigabyte, and it is one or more unless the unit is the byte.
pub unit_index_of_bounds :
    (value : ℕ)
    → (unit_index_of value ≤ 3)
      × ((unit_index_of value ≡ 3) ⊎ (value < 1024 * 1024 ^ unit_index_of value))
      × ((unit_index_of value ≡ 0) ⊎ (1024 ^ unit_index_of value ≤ value))
unfolding unit_index_of unit_loop
unit_index_of_bounds value = (ground arith, ground arith, ground arith)

-- With fuel for the units that are left, the loop ends by its own test.
unit_loop-ends :
    (f g value unit_index : ℕ)
    → 4 ≤ unit_index + f
    → 4 ≤ unit_index + g
    → unit_loop f value unit_index ≡ unit_loop g value unit_index
unfolding unit_loop
unit_loop-ends zero zero value unit_index h k = refl
unit_loop-ends zero (suc g) value unit_index h k = ground arith
unit_loop-ends (suc f) zero value unit_index h k = ground arith
unit_loop-ends (suc f) (suc g) value unit_index h k =
    ground (arith, unit_loop-ends f g value (unit_index + 1))

-- Four rounds are enough: with any more fuel the loop of `formatBytes` ends at the same unit, and
-- where it ends its test is false.
pub unit_loop_terminates :
    (fuel value : ℕ)
    → 4 ≤ fuel
    → (unit_loop fuel value 0 ≡ unit_index_of value)
      × ((leb (1024 * 1024 ^ unit_index_of value) value && ltb (unit_index_of value) 3) ≡ false)
unfolding unit_index_of unit_loop
unit_loop_terminates fuel value h =
    (unit_loop-ends fuel 4 value 0 (omega arith) (omega arith), ground arith)
