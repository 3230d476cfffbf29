-- ===== src/Config/Names.antt =====
-- internal/config/config.go and peer.go: what the name in a request stands for.
use Prim.Native.String
use llemon_swap.Base.{
  String, Bool, true, false, ◌&&◌, Option, none, some, List, [], ◌∷◌, ◌==◌, contains, lookup,
  if◌then◌else◌,
}

-- The model ids, the aliases, and the models of each peer.
pub record ModelNames : Type 0 where
  pub models : List String
  pub aliases : List (String × String)
  pub peers : List (String × List String)

unfoldable pub real_model_name : ModelNames → String → Option String
unfolding contains lookup
real_model_name c search = if contains c.models search then some search else lookup search c.aliases

unfoldable pub peer_model_fqn : String → String → String
peer_model_fqn peer model = String.◌++◌ peer (String.◌++◌ "/" model)

-- A name that two models of peers match is not resolved.
pub data PeerMatch : Type 0 where
  ambiguous no_match : PeerMatch
  one_match : String → String → PeerMatch

-- One model of a peer, after what was found so far. A model that the peer lists twice changes nothing.
abbrev pub with_match : Bool → String → String → PeerMatch → PeerMatch
with_match false peer model found = found
with_match true peer model no_match = one_match peer model
with_match true peer model ambiguous = ambiguous
with_match true peer model (one_match p m) =
    if p == peer && m == model then one_match p m else ambiguous

unfoldable pub scan_models : (String → String → Bool) → String → List String → PeerMatch → PeerMatch
scan_models matches peer [] found = found
scan_models matches peer (m ∷ ms) found =
    scan_models matches peer ms (with_match (matches peer m) peer m found)

unfoldable pub scan_peers :
    (String → String → Bool) → List (String × List String) → PeerMatch → PeerMatch
unfolding scan_models
scan_peers matches [] found = found
scan_peers matches ((peer, models) ∷ peers) found =
    scan_peers matches peers (scan_models matches peer models found)

unfoldable pub resolve_peer_model : ModelNames → String → Option (String × String)
unfolding scan_peers peer_model_fqn
resolve_peer_model c search =
    elim (scan_peers (λ peer m. peer_model_fqn peer m == search) c.peers no_match) [
      | ambiguous ↦ none
      | one_match peer m ↦ some (peer, m)
      | no_match ↦ elim (scan_peers (λ peer m. m == search) c.peers no_match) [
        | one_match peer m ↦ some (peer, m)
        | _ ↦ none
      ]
    ]

unfoldable pub resolve_base_model : ModelNames → String → Option String
unfolding real_model_name resolve_peer_model
resolve_base_model c search = elim (real_model_name c search) [
  | some name ↦ some name
  | none ↦ elim (resolve_peer_model c search) [ some peer ↦ some search | none ↦ none ]
]
