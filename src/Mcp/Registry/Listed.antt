-- ===== src/Mcp/Registry/Listed.antt =====
-- Every resource that the registry lists can be fetched.
use xscope_hub.Prelude.{
  Bytes, some, List, [], ◌∷◌, ok, ◌≡◌, refl, Dict, lookup, insert, lookup-insert, All, same,
  same_iff, same_refl, Bool-cases, inl, inr, ◌∙◌,
}
use xscope_hub.Mcp.Registry.{
  ResourceDescriptor, ResourcePayload, Registry, empty, descriptor_of, add_resource,
  register_resources, list_resources, resource, values,
}

All-insert :
    {V : Type 0} (P : Bytes × V → Type 0) (k : Bytes) (v : V) (m : Dict V)
    → All P m
    → P (k, v)
    → All P (insert k v m)
unfolding insert
All-insert P k v [] h p = (p, tt)
All-insert P k v ((j, w) ∷ m) (q, h) p = elim (Bool-cases (same j k)) [
  | inl e ↦ rw e (p, h)
  | inr e ↦ rw e (q, All-insert P k v m h p)
]

module _ (J : Type 0) where
  -- A payload of the descriptor's name is held under that name.
  abbrev Held : Dict (ResourcePayload J) → Bytes × ResourceDescriptor → Type 0
  Held m (k, d) = (p : ResourcePayload J) × (lookup d.name m ≡ some p) × (p.name ≡ d.name)

  grow-Held :
      (res : ResourcePayload J) (m : Dict (ResourcePayload J)) (kd : Bytes × ResourceDescriptor)
      → Held m kd
      → Held (insert res.name res m) kd
  grow-Held res m (k, d) (p, found, named) = elim (Bool-cases (same res.name d.name)) [
    | inl e ↦ (res, lookup-insert res.name d.name res m ∙ rw e refl, (same_iff res.name d.name).0 e)
    | inr e ↦ (p, lookup-insert res.name d.name res m ∙ rw e found, named)
  ]

  grow_each-Held :
      (res : ResourcePayload J) (m : Dict (ResourcePayload J)) (ds : Dict ResourceDescriptor)
      → All (Held m) ds
      → All (Held (insert res.name res m)) ds
  grow_each-Held res m [] h = tt
  grow_each-Held res m (d ∷ ds) (q, h) = (grow-Held res m d q, grow_each-Held res m ds h)

  new-Held :
      (res : ResourcePayload J) (m : Dict (ResourcePayload J))
      → Held (insert res.name res m) (res.name, descriptor_of J res)
  new-Held res m = (res, lookup-insert res.name res.name res m ∙ rw (same_refl res.name) refl, refl)

  register-Held :
      (rs : List (ResourcePayload J)) (r : Registry J)
      → All (Held r.resource_data) r.resources
      → let r' = register_resources J rs r in All (Held r'.resource_data) r'.resources
  unfolding register_resources
  register-Held [] r h = h
  register-Held (res ∷ rs) r h = register-Held rs (add_resource J res r) (
      All-insert (Held (insert res.name res r.resource_data)) res.name (descriptor_of J res)
        r.resources (grow_each-Held res r.resource_data r.resources h)
        (new-Held res r.resource_data))

  -- `Resource` gives a payload of the descriptor's name.
  abbrev pub Fetched : Registry J → ResourceDescriptor → Type 0
  Fetched r d = (p : ResourcePayload J) × (resource J d.name r ≡ ok p) × (p.name ≡ d.name)

  values-Fetched :
      (r : Registry J) (ds : Dict ResourceDescriptor)
      → All (Held r.resource_data) ds
      → All (Fetched r) (values J ds)
  unfolding resource
  values-Fetched r [] h = tt
  values-Fetched r ((k, d) ∷ ds) ((p, found, named), h) =
      ((p, rw (found, resource) refl, named), values-Fetched r ds h)

  -- Whatever resources have been registered in an empty registry, each that `ListResources` lists is
  -- fetched by `Resource` under its name, with a payload of that name.
  pub list_resources-Fetched :
      (rs : List (ResourcePayload J))
      → let r = register_resources J rs (empty J) in All (Fetched r) (list_resources J r)
  list_resources-Fetched rs =
      let r = register_resources J rs (empty J) in
      values-Fetched r r.resources (register-Held rs (empty J) tt)
