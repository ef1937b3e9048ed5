-- ===== src/Format/Risk/Change.antt =====
-- The trend and the change of the risk, which look at the last two points of the history.
use ddsds.Common.{
  ℕ, ◌+◌, ◌-◌, ◌≡◌, ◌≢◌, refl, ◌∙◌, ap, String, false, List, [], ◌∷◌, ◌++◌, append_assoc, map, take,
  All, length, length-append, get_elem?, some, arith, eq_iff, ltb, ◌==◌, if◌then◌else◌,
}
use mathlib.Core.List.{Mem}
use ddsds.Common.Sort.{sort_by, length-sort_by}
use ddsds.I18n.Template.{Argument, words}
use ddsds.I18n.State.{Messages}
use ddsds.Format.Risk.{
  RiskFactor, RiskHistoryPoint, score_of, heavier, system, format_risk_factor,
  format_risk_top_contributors, weight_of, change_of, format_risk_trend, format_risk_change_summary,
}
use ddsds.Format.Risk.Contributors.{IsHeaviest, head-IsHeaviest, labelled}

get_elem?-append {ℓ} :
    {A : Type ℓ} (xs : List A) (y : A) (ys : List A) → get_elem? (xs ++ y ∷ ys) (length xs) ≡ some y
get_elem?-append [] y ys = refl
get_elem?-append (x ∷ xs) y ys = get_elem?-append xs y ys

module _ (older : List RiskHistoryPoint) (p q : RiskHistoryPoint) where
  length-history : length (older ++ p ∷ q ∷ []) ≡ length older + 2
  length-history = length-append older (p ∷ q ∷ [])

  before_last : get_elem? (older ++ p ∷ q ∷ []) (length (older ++ p ∷ q ∷ []) - 2) ≡ some p
  before_last =
      let e : length (older ++ p ∷ q ∷ []) - 2 ≡ length older = omega (arith, length-history) in
      rw e (get_elem?-append older p (q ∷ []))

  at_last : get_elem? (older ++ p ∷ q ∷ []) (length (older ++ p ∷ q ∷ []) - 1) ≡ some q
  at_last =
      let e : length (older ++ p ∷ q ∷ []) - 1 ≡ length (older ++ p ∷ []) =
        omega (arith, length-history, length-append {0} older (p ∷ [])) in
      rw (e, ← append_assoc older (p ∷ []) (q ∷ [])) (get_elem?-append (older ++ p ∷ []) q [])

-- Of a history that ends in the points p and q, the trend is up or down by the exact difference of
-- their scores, or stable if they are equal.
pub format_risk_trend_lem :
    (m : Messages) (older : List RiskHistoryPoint) (p q : RiskHistoryPoint)
    → format_risk_trend m (older ++ p ∷ q ∷ []) ≡ (
        if ltb p.score q.score
        then system m "riskTrendUp" (Argument.count (q.score - p.score) ∷ [])
        else if ltb q.score p.score
        then system m "riskTrendDown" (Argument.count (p.score - q.score) ∷ [])
        else system m "riskTrendStable" [])
unfolding format_risk_trend
format_risk_trend_lem m older p q =
    let long : ltb (length (older ++ p ∷ q ∷ [])) 2 ≡ false =
      ground (arith, length-history older p q) in
    rw (long, ap score_of (before_last older p q), ap score_of (at_last older p q)) refl

top_contributor-IsHeaviest :
    (m : Messages) (f : RiskFactor) (fs : List RiskFactor)
    → (top : RiskFactor) × IsHeaviest top (f ∷ fs)
      × (format_risk_top_contributors m (f ∷ fs) 1 ≡ labelled m top ∷ [])
unfolding format_risk_top_contributors
top_contributor-IsHeaviest m f fs = go (sort_by heavier (f ∷ fs)) refl
  where
    go :
        (xs : List RiskFactor)
        → sort_by heavier (f ∷ fs) ≡ xs
        → (top : RiskFactor) × IsHeaviest top (f ∷ fs)
          × (map (labelled m) (take 1 (sort_by heavier (f ∷ fs))) ≡ labelled m top ∷ [])
    go [] e = absurd (omega (arith, length-sort_by heavier (f ∷ fs), ap length e))
    go (x ∷ xs) e = (x, head-IsHeaviest (f ∷ fs) x xs e, rw e refl)

-- The summary speaks of a heaviest factor, against its weight and the score in the point p.
format_risk_change_summary_lem :
    (m : Messages) (factors : List RiskFactor) (older : List RiskHistoryPoint)
    (p q : RiskHistoryPoint) (score : ℕ)
    → factors ≢ []
    → (top : RiskFactor) × IsHeaviest top factors
      × (format_risk_change_summary m factors (older ++ p ∷ q ∷ []) score
          ≡ change_of m (labelled m top) (weight_of top.code p.factors 0) p.score score)
unfolding format_risk_change_summary
format_risk_change_summary_lem m [] older p q score ne = absurd (ne refl)
format_risk_change_summary_lem m (f ∷ fs) older p q score ne =
    let (top, heaviest, e) = top_contributor-IsHeaviest m f fs in
    let long : ltb (length (older ++ p ∷ q ∷ [])) 2 ≡ false =
      ground (arith, length-history older p q) in
    let some_factor : (length (f ∷ fs) == 0) ≡ false = ground arith in
    (top, heaviest, rw (long, some_factor, before_last older p q, e) refl)

weight_of-absent :
    (code : String) (fs : List RiskFactor) (found : ℕ)
    → All (λ f. f.code ≢ code) fs
    → weight_of code fs found ≡ found
unfolding weight_of
weight_of-absent code [] found h = refl
weight_of-absent code (f ∷ fs) found h =
    ground (arith, eq_iff f.code code, weight_of-absent code fs found h.1)

-- If no code of the current factors is among the factors of p, the last point but one, then the
-- summary names a heaviest current factor as new.
pub format_risk_change_summary_new :
    (m : Messages) (factors : List RiskFactor) (older : List RiskHistoryPoint)
    (p q : RiskHistoryPoint) (score : ℕ)
    → factors ≢ []
    → ((f : RiskFactor) → Mem f factors → All (λ g. g.code ≢ f.code) p.factors)
    → (top : RiskFactor) × IsHeaviest top factors
      × (format_risk_change_summary m factors (older ++ p ∷ q ∷ []) score
          ≡ system m "riskChangeSummaryNewFactor" (words (format_risk_factor m top) ∷ []))
unfolding change_of
format_risk_change_summary_new m factors older p q score ne absent =
    let (top, heaviest, e) = format_risk_change_summary_lem m factors older p q score ne in
    (
      top,
      heaviest,
      e ∙ rw (weight_of-absent top.code p.factors 0 (absent top heaviest.listed)) refl,
    )
