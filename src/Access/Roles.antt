-- ===== src/Access/Roles.antt =====
-- What `Allows` promises: roles grow, scopes only narrow, and capabilities are what is allowed.
use ding.Base.{◌≡◌, refl, true, arith, ℕ, ◌≤◌, Member, here, there, ◌↔◌, keep-Member, Member-keep}
use ding.Access.Policy.{
  Role, viewer, editor, administrator, owner, unknown_role, Action, inspect, preview, manage, retry,
  destinations, credentials, members, owners, move, delete_workspace, host, ingest, unlisted,
  actions, Principal, is_listed, is_valid, in_scope, role_allows, allows, capabilities, scope,
}

-- The order of the roles.
unfoldable pub rank : Role → ℕ
rank unknown_role = 0
rank viewer = 1
rank editor = 2
rank administrator = 3
rank owner = 4

role_allows_mono :
    (p : Principal) (r : Role) (action : Action)
    → is_valid p.role ≡ true
    → rank p.role ≤ rank r
    → role_allows p action ≡ true
    → role_allows (record p { role = r }) action ≡ true
unfolding rank role_allows is_valid
role_allows_mono p r action v h a = ground (arith, v, h, a)

scope-role :
    (p : Principal) (r : Role) (action : Action)
    → scope (record p { role = r }) action ≡ scope p action
unfolding scope
scope-role p r inspect = refl
scope-role p r preview = refl
scope-role p r manage = refl
scope-role p r retry = refl
scope-role p r destinations = refl
scope-role p r credentials = refl
scope-role p r members = refl
scope-role p r owners = refl
scope-role p r move = refl
scope-role p r delete_workspace = refl
scope-role p r host = refl
scope-role p r ingest = refl
scope-role p r (unlisted s) = refl

rank-is_valid : (r s : Role) → is_valid r ≡ true → rank r ≤ rank s → is_valid s ≡ true
unfolding rank is_valid
rank-is_valid r s v h = ground (arith, v, h)

-- What a principal is allowed stays allowed when only its role is raised.
pub allows_mono :
    (p : Principal) (r : Role) (action : Action)
    → rank p.role ≤ rank r
    → allows p action ≡ true
    → allows (record p { role = r }) action ≡ true
unfolding allows in_scope
allows_mono p r action h a =
    ground (arith, a, scope-role p r action, role_allows_mono p r action, rank-is_valid p.role r)

allows-Member : (p : Principal) (action : Action) → allows p action ≡ true → Member action actions
unfolding allows is_listed
allows-Member p inspect h = here refl
allows-Member p preview h = there (here refl)
allows-Member p manage h = there (there (here refl))
allows-Member p retry h = there (there (there (here refl)))
allows-Member p destinations h = there (there (there (there (here refl))))
allows-Member p credentials h = there (there (there (there (there (here refl)))))
allows-Member p members h = there (there (there (there (there (there (here refl))))))
allows-Member p owners h = there (there (there (there (there (there (there (here refl)))))))
allows-Member p move h = there (there (there (there (there (there (there (there (here refl))))))))
allows-Member p delete_workspace h =
    there (there (there (there (there (there (there (there (there (here refl)))))))))
allows-Member p host h =
    there (there (there (there (there (there (there (there (there (there (here refl))))))))))
allows-Member p ingest h =
    there
      (there (there (there (there (there (there (there (there (there (there (here refl)))))))))))
allows-Member p (unlisted s) h = ground (arith, h)

-- An action is among the capabilities of a principal exactly when the principal is allowed it.
pub capabilities-allows :
    (p : Principal) (action : Action) → Member action (capabilities p) ↔ (allows p action ≡ true)
unfolding capabilities
capabilities-allows p action = (
  λ m. Member-keep (allows p) action actions m,
  λ h. keep-Member (allows p) action actions (allows-Member p action h) h,
)
