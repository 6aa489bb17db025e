-- ===== src/Access/Examples.antt =====
-- An integration of an editor that may manage watches.
use ding.Base.{◌≡◌, refl, ◌↔◌, true, false, [], ◌∷◌, arith, Member}
use ding.Access.Policy.{Principal, editor, administrator, manage, allows, capabilities}
use ding.Access.Roles.{rank, allows_mono, capabilities-allows}

abbrev integration : Principal
integration = record {
  user = "u";
  workspace = "w";
  role = editor;
  kind = "integration";
  operator = false;
  scopes = "manage" ∷ [];
}

allows_mono_example : allows (record integration { role = administrator }) manage ≡ true
unfolding allows rank
allows_mono_example = allows_mono integration administrator manage (omega arith) refl

capabilities-allows_example :
    Member manage (capabilities integration) ↔ (allows integration manage ≡ true)
capabilities-allows_example = capabilities-allows integration manage
