-- ===== src/Conditions/Setter/Order.antt =====
-- `lexicographicLess` is a strict order, so the sorts of the package have one result.
use cluster_api_provider_vcl.Base.{◌≡◌, true, false, arith, eq_iff}
use cluster_api_provider_vcl.Base.Text.{lt_irrefl, lt_asymm, lt_not_trans}
use cluster_api_provider_vcl.Base.Sort.{StrictOrder}
use cluster_api_provider_vcl.Api.Condition.{Condition, ready_condition}
use cluster_api_provider_vcl.Conditions.Setter.{lexicographic_less}

less_asymm : (a b : Condition) → lexicographic_less a b ≡ true → lexicographic_less b a ≡ false
unfolding lexicographic_less
less_asymm a b h =
    ground
      (arith, eq_iff a.type ready_condition, eq_iff b.type ready_condition, lt_asymm a.type b.type)

less_not_trans :
    (a b c : Condition)
    → lexicographic_less b a ≡ false
    → lexicographic_less c b ≡ false
    → lexicographic_less c a ≡ false
unfolding lexicographic_less
less_not_trans a b c h k = ground (
  arith,
  eq_iff a.type ready_condition,
  eq_iff b.type ready_condition,
  eq_iff c.type ready_condition,
  lt_not_trans a.type b.type c.type,
  lt_irrefl ready_condition,
)

pub lexicographic_less-StrictOrder : StrictOrder lexicographic_less
lexicographic_less-StrictOrder = record { asymm = less_asymm; not_trans = less_not_trans }
