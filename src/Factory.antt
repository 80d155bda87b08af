-- ===== src/Factory.antt =====
-- The registry of aggregator types: internal/factory/task_factory.go. The factories that the packages
-- register are a parameter.
use go2net_spectra.Base.{ℕ, Bytes, bytes_eq, List, [], ◌∷◌, ◌++◌, Option, none, some, if◌then◌else◌}

-- `model.Task` values are pointers: a group names its tasks by their places in the store of all tasks.
-- `writers` are the intervals of the group's writers.
pub record TaskGroup : Type 0 where
  pub tasks : List ℕ
  pub writers : List ℕ

pub data CreateError (E : Type 0) : Type 0 where
  unknown_type : Bytes → CreateError E
  factory_error : Bytes → E → CreateError E

pub data Created (E R : Type 0) : Type 0 where
  created : R → Created E R
  not_created : CreateError E → Created E R

pub data Made (E R : Type 0) : Type 0 where
  made : R → Made E R
  failed : E → Made E R

-- `factories`, from a configuration C, with R for the groups.
module _ {C R E : Type 0} where
  -- `registry[name]`.
  unfoldable pub registered : List (Bytes × (C → Made E R)) → Bytes → Option (C → Made E R)
  registered [] name = none
  registered ((n, factory) ∷ rest) name =
      if bytes_eq n name then some factory else registered rest name

  -- `none` is the panic on a name that is there already.
  unfoldable pub register_aggregator :
      Bytes
      → (C → Made E R)
      → List (Bytes × (C → Made E R))
      → Option (List (Bytes × (C → Made E R)))
  unfolding registered
  register_aggregator name factory registry = elim (registered registry name) [
    | some old ↦ none
    | none ↦ some ((name, factory) ∷ registry)
  ]

  -- `Create`, from the groups made so far.
  unfoldable pub create_from :
      List (Bytes × (C → Made E R)) → C → List R → List Bytes → Created E (List R)
  unfolding registered
  create_from registry cfg groups [] = created groups
  create_from registry cfg groups (t ∷ types) = elim (registered registry t) [
    | none ↦ not_created (unknown_type t)
    | some factory ↦ elim (factory cfg) [
      | failed e ↦ not_created (factory_error t e)
      | made group ↦ create_from registry cfg (groups ++ group ∷ []) types
    ]
  ]

  unfoldable pub create : List (Bytes × (C → Made E R)) → C → List Bytes → Created E (List R)
  unfolding create_from
  create registry cfg types = create_from registry cfg [] types
