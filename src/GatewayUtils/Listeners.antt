-- ===== src/GatewayUtils/Listeners.antt =====
-- The listeners that MergeGatewaySpec and RemoveIngressListeners leave.
use ingress_operator.Prelude.{
  ◌≡◌, refl, ◌∙◌, sym, ap, ap₂, Bool, true, not, ◌||◌, Option, none, some, List, [], ◌∷◌, ◌==◌,
  if◌then◌else◌, arith, Distinct, contains, keep,
}
use ingress_operator.Text.{Text, text_eq, same_iff}
use ingress_operator.Dict.{
  Dict, IsMap, keys, lookup, insert, lookup-insert, insert-IsMap, keys-Distinct, MapOrder,
}
use ingress_operator.Kube.{Ingress, IngressRule, Gateway, Listener}
use ingress_operator.Translator.{Config}
use ingress_operator.Translator.Hostname.{transform_hostname}
use ingress_operator.Translator.Route.{route_hostnames}
use ingress_operator.Translator.Gateway.Listeners.{listener_names}
use ingress_operator.GatewayUtils.{
  put_listeners, values, merge_listeners, hostnames_to_remove, is_set, remaining_listeners,
  remove_ingress_listeners,
}

-- The first listener of a name, and the last one.
pub find_listener : Text → List Listener → Option Listener
find_listener n [] = none
find_listener n (l ∷ ls) = if l.name == n then some l else find_listener n ls

pub or_else : Option Listener → Option Listener → Option Listener
or_else none b = b
or_else (some l) b = some l

pub last_listener : Text → List Listener → Option Listener
unfolding or_else
last_listener n [] = none
last_listener n (l ∷ ls) = or_else (last_listener n ls) (if l.name == n then some l else none)

-- Each entry of the map is under the name of its listener.
abbrev Named : Dict Listener → Type 0
Named d = (k : Text) (l : Listener) → lookup k d ≡ some l → k ≡ l.name

lookup-put_listeners :
    (n : Text) (ls : List Listener) (d : Dict Listener)
    → lookup n (put_listeners ls d) ≡ or_else (last_listener n ls) (lookup n d)
unfolding put_listeners last_listener
lookup-put_listeners n [] d = refl
lookup-put_listeners n (l ∷ ls) d =
    ground (arith, lookup-put_listeners n ls (insert l.name l d), lookup-insert n l.name l d)

put_listeners-IsMap :
    (ls : List Listener) (d : Dict Listener) → IsMap d → IsMap (put_listeners ls d)
unfolding put_listeners
put_listeners-IsMap [] d h = h
put_listeners-IsMap (l ∷ ls) d h =
    put_listeners-IsMap ls (insert l.name l d) (insert-IsMap l.name l d h)

insert-Named : (l : Listener) (d : Dict Listener) → Named d → Named (insert l.name l d)
insert-Named l d h k l' e = ground (arith, lookup-insert k l.name l d, h k l', same_iff l.name k, e)

put_listeners-Named :
    (ls : List Listener) (d : Dict Listener) → Named d → Named (put_listeners ls d)
unfolding put_listeners
put_listeners-Named [] d h = h
put_listeners-Named (l ∷ ls) d h = put_listeners-Named ls (insert l.name l d) (insert-Named l d h)

Named-tail :
    (k : Text) (l : Listener) (d : Dict Listener) → lookup k d ≡ none → Named ((k, l) ∷ d) → Named d
unfolding lookup
Named-tail k l d fresh h j l' e = h j l' (ground (arith, same_iff k j, fresh, e))

Named-head : (k : Text) (l : Listener) (d : Dict Listener) → Named ((k, l) ∷ d) → k ≡ l.name
unfolding lookup
Named-head k l d h = h k l (ground (arith, same_iff k k))

find_listener-values :
    (n : Text) (d : Dict Listener) → IsMap d → Named d → find_listener n (values d) ≡ lookup n d
unfolding find_listener values lookup
find_listener-values n [] m h = refl
find_listener-values n ((k, l) ∷ d) (fresh, m) h =
    ground (arith, find_listener-values n d m (Named-tail k l d fresh h), Named-head k l d h)

names-values : (d : Dict Listener) → IsMap d → Named d → listener_names (values d) ≡ keys d
unfolding values keys
names-values [] m h = refl
names-values ((k, l) ∷ d) (fresh, m) h =
    ap₂ (λ a r. a ∷ r) (sym (Named-head k l d h)) (names-values d m (Named-tail k l d fresh h))

module _ (order : MapOrder) (existing desired : List Listener) where
  listener_map : Dict Listener
  listener_map = put_listeners desired (put_listeners existing [])

  listener_map-IsMap : IsMap listener_map
  unfolding listener_map
  listener_map-IsMap = put_listeners-IsMap desired _ (put_listeners-IsMap existing [] tt)

  nothing-Named : Named []
  unfolding lookup
  nothing-Named k l e = cc

  arranged-Named : Named (order.arrange Listener listener_map)
  unfolding listener_map
  arranged-Named k l e =
      put_listeners-Named desired _ (put_listeners-Named existing [] nothing-Named) k l
        (sym (order.lookup-arrange Listener listener_map k listener_map-IsMap) ∙ e)

  -- Merged listeners have different names. Under each name stands the last desired listener of
  -- that name, or else the last existing one, in whatever order the map is ranged over.
  pub merge_listeners_lem :
      Distinct (listener_names (merge_listeners order existing desired))
      × ((n : Text)
          → find_listener n (merge_listeners order existing desired)
            ≡ or_else (last_listener n desired) (last_listener n existing))
  unfolding merge_listeners listener_map
  merge_listeners_lem =
      let arranged = order.arrange Listener listener_map in
      let is_map = order.arrange-IsMap Listener listener_map listener_map-IsMap in
      (
        rw (names-values arranged is_map arranged-Named) (keys-Distinct arranged is_map),
        λ n.
            find_listener-values n arranged is_map arranged-Named
            ∙ order.lookup-arrange Listener listener_map n listener_map-IsMap
            ∙ lookup-put_listeners n desired (put_listeners existing [])
            ∙ ap (or_else (last_listener n desired))
                (lookup-put_listeners n existing [] ∙ unfold lookup or_else in ground arith),
      )

removed :
    (t : Config) (n : Text) (rules : List IngressRule) (set : Dict Bool)
    → is_set (lookup n (hostnames_to_remove t rules set))
      ≡ (contains (route_hostnames t rules) n || is_set (lookup n set))
unfolding hostnames_to_remove route_hostnames contains is_set
removed t n [] set = refl
removed t n (rule ∷ rules) set = ground (
  arith,
  removed t n rules set,
  removed t n rules (insert (transform_hostname t rule.host) true set),
  lookup-insert n (transform_hostname t rule.host) true set,
)

remaining_listeners_lem :
    (t : Config) (rules : List IngressRule) (ls : List Listener)
    → remaining_listeners (hostnames_to_remove t rules []) ls
      ≡ keep (λ l. not (contains (route_hostnames t rules) l.name)) ls
unfolding remaining_listeners keep lookup is_set
remaining_listeners_lem t rules [] = refl
remaining_listeners_lem t rules (l ∷ ls) =
    ground (arith, remaining_listeners_lem t rules ls, removed t l.name rules [])

-- After the listeners of an ingress are removed, those are left, in order, whose name is no
-- hostname of its HTTPRoute.
pub remove_ingress_listeners-listeners :
    (gateway : Gateway) (ingress : Ingress) (t : Config)
    → (remove_ingress_listeners gateway ingress t).listeners
      ≡ keep (λ l. not (contains (route_hostnames t ingress.rules) l.name)) gateway.listeners
unfolding remove_ingress_listeners
remove_ingress_listeners-listeners gateway ingress t =
    remaining_listeners_lem t ingress.rules gateway.listeners
