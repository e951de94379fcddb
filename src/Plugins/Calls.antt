-- ===== src/Plugins/Calls.antt =====
-- The plugin manager under any sequence of calls of its methods.
use effective_next.Prelude.{◌≡◌, refl, List, [], ◌∷◌, String}
use effective_next.Plugins.{
  Plugin, Manager, Registration, registered, already_registered, new, register, unregister, clear,
}
use effective_next.Plugins.Valid.{
  IsValid, new-IsValid, clear-IsValid, register-IsValid, unregister-IsValid,
}

pub data Call (C : Type 0) : Type 0 where
  register_call : Plugin C → Call C
  unregister_call : String → Call C
  clear_call : Call C

module _ {C : Type 0} where
  -- `Register` that returns an error leaves the manager as it was.
  after : Manager C → Registration C → Manager C
  after m (registered m') = m'
  after m (already_registered name) = m

  unfoldable pub call : Call C → Manager C → Manager C
  unfolding after
  call (register_call p) m = after m (register p m)
  call (unregister_call name) m = unregister name m
  call clear_call m = clear m

  unfoldable pub calls : List (Call C) → Manager C → Manager C
  unfolding call
  calls [] m = m
  calls (c ∷ cs) m = calls cs (call c m)

  after-IsValid :
      (p : Plugin C) (m : Manager C) (r : Registration C)
      → IsValid m
      → register p m ≡ r
      → IsValid (after m r)
  unfolding after
  after-IsValid p m (registered m') v e = register-IsValid p m m' v e
  after-IsValid p m (already_registered name) v e = v

  call-IsValid : (c : Call C) (m : Manager C) → IsValid m → IsValid (call c m)
  unfolding call
  call-IsValid (register_call p) m v = after-IsValid p m (register p m) v refl
  call-IsValid (unregister_call name) m v = unregister-IsValid name m v
  call-IsValid clear_call m v = clear-IsValid m

  calls_keep : (cs : List (Call C)) (m : Manager C) → IsValid m → IsValid (calls cs m)
  unfolding calls
  calls_keep [] m v = v
  calls_keep (c ∷ cs) m v = calls_keep cs (call c m) (call-IsValid c m v)

  -- After any calls on a new manager each hook lists exactly the plugins registered for it, each as
  -- often as the plugin names the hook, and plugins stand under their own names.
  pub calls-IsValid : (cs : List (Call C)) → IsValid (calls cs new)
  calls-IsValid cs = calls_keep cs new new-IsValid
