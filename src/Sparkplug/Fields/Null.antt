-- ===== src/Sparkplug/Fields/Null.antt =====
-- internal/sparkplug/decode.go: null metrics.
use mcm.Base.{◌≡◌, refl, false, inl, inr, ◌⊎◌, subst, Bool-cases}
use mcm.Base.Result.{Result, ok, err}
use mcm.Text.{Bytes}
use mcm.Sparkplug.Metric.{Wire, DecodeError, DecodedMetric, Value}
use mcm.Sparkplug.Fields.{decode_metric, finish_metric, clear_null}

-- A metric that is null has no value.
abbrev pub IsNullClean : DecodedMetric → Type 0
IsNullClean m = (m.is_null ≡ false) ⊎ (m.value ≡ Value.nil)

clear_null-IsNullClean : (m : DecodedMetric) → IsNullClean (clear_null m)
clear_null-IsNullClean m = elim (Bool-cases m.is_null) [
  | inl e ↦ inr (rw e refl)
  | inr e ↦ inl (rw e refl)
]

finish-IsNullClean :
    (r : Result DecodeError DecodedMetric) (m : DecodedMetric)
    → finish_metric r ≡ ok m
    → IsNullClean m
finish-IsNullClean (ok m') m e =
    let same : clear_null m' ≡ m = cc in subst IsNullClean same (clear_null-IsNullClean m')
finish-IsNullClean (err x) m e = cc

-- A decoded metric that is marked null has no value, in whatever order its fields came.
pub decode_metric-IsNullClean :
    (w : Wire) (body : Bytes) (m : DecodedMetric) → decode_metric w body ≡ ok m → IsNullClean m
unfolding decode_metric
decode_metric-IsNullClean w body m e = finish-IsNullClean _ m e
