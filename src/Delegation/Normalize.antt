-- ===== src/Delegation/Normalize.antt =====
-- packages/agent-client/src/delegation-normalize.ts: a delegation's grants, from its signed part.
use tinycloud_agents.Base.{
  ℕ, ◌+◌, Bool, not, ◌||◌, Option, none, some, List, [], ◌∷◌, ◌++◌, String, if◌then◌else◌, ◌===◌,
  text_eq, distinct, first,
}
use tinycloud_agents.Delegation.{
  GrantResource, PortableDelegation, Sdk, Reason, malformed, Checked, ok, err, ◌>>=◌,
}
use tinycloud_agents.Delegation.Text.{split, join, strip_bearer, has_char}
use tinycloud_agents.Delegation.Shape.{is_blank}
use tinycloud_agents.Delegation.Policy.{deserialize_delegation_safe}

-- A value of JSON, as far as the code looks at it.
mutual
  pub data Json : Type 0 where
    null : Json
    boolean : Bool → Json
    number : ℕ → Json
    text : String → Json
    array : Elements → Json
    object : Members → Json

  pub data Elements : Type 0 where
    no_element : Elements
    element : Json → Elements → Elements

  pub data Members : Type 0 where
    no_member : Members
    member : String → Json → Members → Members

-- What the platform and the SDK do: `JSON.parse` of a base64url segment, `none` where it throws;
-- the printing of an array's index; `parseSpaceUri`, `none` for `null`, with its address; and
-- `toLowerCase`.
pub record Platform : Type 0 where
  pub parse_segment : String → Option Json
  pub print_index : ℕ → String
  pub parse_space_uri : String → Option (Option String)
  pub lower : String → String

-- `Object.keys`.
unfoldable pub member_keys : Members → List String
member_keys no_member = []
member_keys (member key value rest) = key ∷ member_keys rest

unfoldable pub lookup : String → Members → Option Json
lookup key no_member = none
lookup key (member k value rest) = if k === key then some value else lookup key rest

module _ (platform : Platform) where
  pub index_entries : ℕ → Elements → List (String × Json)
  index_entries i no_element = []
  index_entries i (element value rest) =
      (platform.print_index i, value) ∷ index_entries (i + 1) rest

  -- `decodeJwtPayload`, an object or an array.
  unfoldable pub decode_jwt_payload : String → Checked Reason Json
  decode_jwt_payload header = elim (split 46 (strip_bearer header)) [
    | [] ↦ err malformed
    | head ∷ rest ↦ elim rest [
      | [] ↦ err malformed
      | segment ∷ more ↦ elim (platform.parse_segment segment) [
        | some (object members) ↦ ok (object members)
        | some (array elements) ↦ ok (array elements)
        | _ ↦ err malformed
      ]
    ]
  ]

  unfoldable pub entries : Members → List (String × Json)
  entries no_member = []
  entries (member key value rest) = (key, value) ∷ entries rest

  -- `parseResourceUri`, with the actions that the entry grants.
  unfoldable pub parse_resource_uri : String → List String → Checked Reason GrantResource
  parse_resource_uri uri actions = elim (split 47 uri) [
    | [] ↦ err malformed
    | space ∷ rest ↦ elim rest [
      | [] ↦ err malformed
      | service ∷ path ↦
          if service === "" then err malformed else elim (platform.parse_space_uri space) [
            | none ↦ err malformed
            | some address ↦ ok (record {
              service = service;
              space = space;
              path = join "/" path;
              actions = actions;
            })
          ]
    ]
  ]

  -- What one entry adds; `none` where it is passed over.
  unfoldable pub grant_of : String → Json → Checked Reason (Option GrantResource)
  grant_of uri (array elements) = err malformed
  grant_of uri (object (member key value rest)) = do
    g ← parse_resource_uri uri (member_keys (member key value rest))
    ok (some g)
  grant_of uri (object no_member) = ok none
  grant_of uri null = ok none
  grant_of uri (boolean b) = ok none
  grant_of uri (number n) = ok none
  grant_of uri (text s) = ok none

  abbrev pub push : Option GrantResource → List GrantResource → List GrantResource
  push none gs = gs
  push (some g) gs = g ∷ gs

  -- The loop of `resourcesFromAtt`.
  unfoldable pub resources_from_entries : List (String × Json) → Checked Reason (List GrantResource)
  resources_from_entries [] = ok []
  resources_from_entries ((uri, abilities) ∷ rest) = do
    g ← grant_of uri abilities
    gs ← resources_from_entries rest
    ok (push g gs)

  unfoldable pub resources_from_att : Json → Checked Reason (List GrantResource)
  resources_from_att (object members) = resources_from_entries (entries members)
  resources_from_att (array elements) = resources_from_entries (index_entries 0 elements)
  resources_from_att _ = err malformed

  -- `payload.att`; an array has no such member.
  unfoldable pub att_of : Json → Checked Reason Json
  att_of (object members) = elim (lookup "att" members) [ some att ↦ ok att | none ↦ err malformed ]
  att_of _ = err malformed

  abbrev pub all_actions : List GrantResource → List String
  all_actions [] = []
  all_actions (g ∷ gs) = g.actions ++ all_actions gs

  -- The resources that the signed part grants.
  unfoldable pub signed_resources : Option String → Checked Reason (List GrantResource)
  signed_resources none = err malformed
  signed_resources (some auth) = if is_blank (some auth) then err malformed else do
    payload ← decode_jwt_payload auth
    att ← att_of payload
    resources ← resources_from_att att
    elim resources [ [] ↦ err malformed | g ∷ gs ↦ ok (g ∷ gs) ]

  unfoldable pub normalize_delegation_grants :
      PortableDelegation → Checked Reason PortableDelegation
  normalize_delegation_grants d = do
    resources ← signed_resources d.authorization
    ok (record d { resources = some resources; actions = distinct (all_actions resources) })

  -- The first space with an address.
  unfoldable pub owner_of : List GrantResource → Option String
  owner_of [] = none
  owner_of (g ∷ gs) =
      let later = owner_of gs in
      elim (platform.parse_space_uri g.space) [
        | none ↦ later
        | some none ↦ later
        | some (some address) ↦ if address === "" then later else some address
      ]

  unfoldable pub signed_owner_address : PortableDelegation → Option String
  signed_owner_address d = elim d.resources [ none ↦ none | some gs ↦ owner_of gs ]

  module _ (sdk : Sdk) where
    unfoldable pub deserialize_and_normalize : String → Checked Reason PortableDelegation
    deserialize_and_normalize serialized = do
      d ← deserialize_delegation_safe sdk serialized
      normalize_delegation_grants d

    -- `service.replace(/^tinycloud\\./, "") === "kv"`.
    abbrev is_kv : GrantResource → Bool
    is_kv g = g.service === "kv" || g.service === "tinycloud.kv"

    -- The path of the key-value grant, if it has one that is not empty.
    abbrev kv_path : List GrantResource → String → String
    kv_path gs path = elim (first is_kv gs) [
      | none ↦ path
      | some g ↦ if g.path === "" then path else g.path
    ]

    unfoldable pub of_cid : PortableDelegation → Checked Reason PortableDelegation
    of_cid d = elim d.resources [
      | none ↦ err malformed
      | some [] ↦ err malformed
      | some (g ∷ gs) ↦
          ok
            (record d { path = kv_path (g ∷ gs) d.path; actions = distinct (all_actions (g ∷ gs)) })
    ]

    unfoldable pub for_activation : PortableDelegation → Checked Reason PortableDelegation
    for_activation d = elim d.authorization [
      | none ↦ err malformed
      | some auth ↦
          if is_blank (some auth)
          then err malformed
          else if has_char 46 (strip_bearer auth)
          then normalize_delegation_grants d
          else if not (strip_bearer auth === d.cid)
          then err malformed
          else of_cid d
    ]

    unfoldable pub deserialize_transcript_delegation_for_activation :
        String → Checked Reason PortableDelegation
    deserialize_transcript_delegation_for_activation serialized = do
      d ← deserialize_delegation_safe sdk serialized
      for_activation d
