-- ===== src/ReconcileCache/Written.antt =====
-- What saving a shard leaves in the ConfigMaps (reconcile_cache.go, saveReconcileCacheShard).
use ingress_operator.Prelude.{ℕ, ◌≡◌, ◌≢◌, refl, ◌∙◌, ap, subst, false, Option, none, ◌==◌, nat_eq}
use ingress_operator.Text.{Text, text_eq}
use ingress_operator.Text.Laws.{same_refl, same_ne}
use ingress_operator.Dict.{Dict}
use ingress_operator.Client.{not_found, other, Failure, Answer, ok, err, Client, IsLawful}
use ingress_operator.ReconcileCache.{ConfigMap, shard_name, saved, saved_over, save_shard}
use ingress_operator.ReconcileCache.Shards.{shard_name-injective}

abbrev pub map_namespace : ConfigMap → Text
map_namespace cm = cm.namespace

abbrev pub map_name : ConfigMap → Text
map_name cm = cm.name

module _ {State : Type 0} (config_maps : Client State ConfigMap)
    (lawful : IsLawful map_namespace map_name config_maps) (namespace base_name : Text) where
  abbrev pub read : State → ℕ → Answer ConfigMap
  read s i = config_maps.get_object s namespace (shard_name base_name i)

  -- A shard holds a content.
  abbrev pub Holds : State → ℕ → Dict Text → Type 0
  Holds s i content = (cm : ConfigMap) × (read s i ≡ ok cm) × (cm.content ≡ content)

  other_name : (i j : ℕ) → i ≢ j → (shard_name base_name i == shard_name base_name j) ≡ false
  other_name i j h = same_ne _ _ (λ e. h (shard_name-injective base_name i j e))

  -- A shard that was written holds what was written, and the others hold what they held.
  unfoldable pub Written : State → State → ℕ → Dict Text → Type 0
  Written s s' i content = Holds s' i content × ((j : ℕ) → i ≢ j → read s' j ≡ read s j)

  created-Written :
      (s s' : State) (i : ℕ) (content : Dict Text) (message : Text) (a : Answer State)
      → config_maps.create_object s
          (record { namespace = namespace; name = shard_name base_name i; content = content })
        ≡ a
      → saved config_maps namespace base_name s message a ≡ (s', none)
      → Written s s' i content
  unfolding saved Written
  created-Written s s' i content message (err e) h k = cc
  created-Written s s' i content message (ok s₁) h k =
      let cm : ConfigMap = record {
        namespace = namespace;
        name = shard_name base_name i;
        content = content;
      } in
      subst (λ x. Written s x i content) (ap (λ (p : State × Option Failure). p.0) k)
        (
          (
            cm,
            lawful.get-create s s₁ cm namespace (shard_name base_name i) h
                ∙ rw (same_refl namespace, same_refl (shard_name base_name i)),
            refl,
          ),
          λ j ne.
              lawful.get-create s s₁ cm namespace (shard_name base_name j) h
              ∙ rw (same_refl namespace, other_name i j ne),
        )

  updated-Written :
      (s s' : State) (i : ℕ) (content : Dict Text) (message : Text) (cm : ConfigMap)
      (a : Answer State)
      → read s i ≡ ok cm
      → config_maps.update_object s (record cm { content = content }) ≡ a
      → saved config_maps namespace base_name s message a ≡ (s', none)
      → Written s s' i content
  unfolding saved Written
  updated-Written s s' i content message cm (err e) r h k = cc
  updated-Written s s' i content message cm (ok s₁) r h k =
      let names = lawful.get-names s cm namespace (shard_name base_name i) r in
      let new : ConfigMap = record cm { content = content } in
      subst (λ x. Written s x i content) (ap (λ (p : State × Option Failure). p.0) k)
        (
          (
            new,
            lawful.get-update s s₁ new namespace (shard_name base_name i) h
                ∙ rw (names.0, names.1, same_refl namespace, same_refl (shard_name base_name i)),
            refl,
          ),
          λ j ne.
              lawful.get-update s s₁ new namespace (shard_name base_name j) h
              ∙ rw (names.0, names.1, same_refl namespace, other_name i j ne),
        )

  -- A shard that is saved without an error holds the content that it was given, and every other
  -- shard is read as before.
  pub save_shard-Written :
      (s s' : State) (i : ℕ) (content : Dict Text)
      → save_shard config_maps namespace base_name s i content ≡ (s', none)
      → Written s s' i content
  unfolding save_shard
  save_shard-Written s s' i content = go (read s i) refl
    where
      go :
          (a : Answer ConfigMap)
          → read s i ≡ a
          → saved_over config_maps namespace base_name s i content a ≡ (s', none)
          → Written s s' i content
      go (ok cm) r h = updated-Written s s' i content _ cm _ r refl h
      go (err not_found) r h = created-Written s s' i content _ _ refl h
      go (err (other m)) r h = cc
