-- ===== src/Model/Resource.antt =====
-- internal/domain/model/resource.go
use vnode.Base.{String, Bool, ◌&&◌, ◌==◌}
use vnode.Base.Int.{ℤ, pos, eqb_ℤ}

-- `pods` is an `int32`.
pub record ResourceList : Type 0 where
  pub cpu : String
  pub memory : String
  pub pods : ℤ

-- The zero value of the struct.
abbrev pub no_resources : ResourceList
no_resources = record { cpu = ""; memory = ""; pods = pos 0 }

-- `a == b` on the struct
unfoldable pub resources_eq : ResourceList → ResourceList → Bool
resources_eq a b = (a.cpu == b.cpu) && ((a.memory == b.memory) && eqb_ℤ a.pods b.pods)
