-- ===== src/Access/Policy.antt =====
-- internal/access/access.go: Principal, `Allows`, `Capabilities` and `Require`.
use ding.Base.{
  Bool, true, false, not, ◌&&◌, ◌||◌, String, List, [], ◌∷◌, keep, str_eq, if◌then◌else◌,
}

-- A text that names no role is `unknown_role`.
pub data Role : Type 0 where
  viewer editor administrator owner unknown_role : Role

-- The actions that the package lists, and any other text.
pub data Action : Type 0 where
  inspect preview manage retry destinations credentials members owners move delete_workspace host
        ingest :
      Action
  unlisted : String → Action

abbrev pub actions : List Action
actions =
    inspect ∷ preview ∷ manage ∷ retry ∷ destinations ∷ credentials ∷ members ∷ owners ∷ move
    ∷ delete_workspace ∷ host ∷ ingest ∷ []

pub record Principal : Type 0 where
  pub user : String
  pub workspace : String
  pub role : Role
  pub kind : String
  pub operator : Bool
  pub scopes : List String

unfoldable pub text : Action → String
text inspect = "inspect"
text preview = "preview"
text manage = "manage"
text retry = "retry"
text destinations = "destinations"
text credentials = "credentials"
text members = "members"
text owners = "owners"
text move = "move"
text delete_workspace = "delete_workspace"
text host = "host"
text ingest = "ingest"
text (unlisted s) = s

unfoldable pub is_listed : Action → Bool
is_listed (unlisted s) = false
is_listed _ = true

unfoldable pub is_valid : Role → Bool
is_valid unknown_role = false
is_valid _ = true

unfoldable pub is_host : Action → Bool
is_host host = true
is_host _ = false

unfoldable pub contains : List String → String → Bool
contains [] s = false
contains (t ∷ ts) s = str_eq t s || contains ts s

-- Credentials that carry scopes.
unfoldable pub is_delegated : String → Bool
is_delegated kind =
    str_eq kind "device"
    || (str_eq kind "integration" || (str_eq kind "service" || str_eq kind "ingest"))

-- The scope that an action asks of delegated credentials.
unfoldable pub scope : Principal → Action → String
unfolding contains text
scope p move =
    if not (str_eq p.kind "integration") && contains p.scopes "owners" then "owners" else "move"
scope p destinations = if str_eq p.kind "integration" then "manage" else "destinations"
scope p action = text action

unfoldable pub in_scope : Principal → Action → Bool
unfolding is_delegated contains scope
in_scope p action = not (is_delegated p.kind) || contains p.scopes (scope p action)

abbrev not_viewer : Role → Bool
not_viewer viewer = false
not_viewer _ = true

abbrev administers : Role → Bool
administers administrator = true
administers owner = true
administers _ = false

abbrev owns : Role → Bool
owns owner = true
owns _ = false

-- The switch on the action.
unfoldable pub role_allows : Principal → Action → Bool
role_allows p inspect = true
role_allows p preview = not_viewer p.role
role_allows p manage = not_viewer p.role
role_allows p retry = not_viewer p.role
role_allows p destinations = administers p.role
role_allows p credentials = administers p.role
role_allows p members = administers p.role
role_allows p owners = owns p.role
role_allows p move = owns p.role
role_allows p delete_workspace = owns p.role
role_allows p ingest = str_eq p.kind "ingest" || str_eq p.kind "service"
role_allows p host = false
role_allows p (unlisted s) = false

unfoldable pub allows : Principal → Action → Bool
unfolding is_listed is_valid is_host in_scope role_allows
allows p action =
    if str_eq p.user "" || (str_eq p.workspace "" || not (is_listed action))
    then false
    else if p.operator
    then true
    else if not (is_valid p.role) || is_host action
    then false
    else if not (in_scope p action)
    then false
    else role_allows p action

unfoldable pub capabilities : Principal → List Action
unfolding allows
capabilities p = keep (allows p) actions
