-- ===== src/Error/Callbacks.antt =====
-- Which callbacks an error calls.
use libchronos.Base.{◌≡◌, List, [], ◌∷◌, ◌++◌, map}
use libchronos.Error.{
  Error, ErrorHandler, in_category, invoke_callbacks, register_callback, unregister_callback,
  register_category_callback, unregister_category_callback,
}

module _ {Text C : Type 0} where
  -- A callback, and an error of its category: what is called while it is registered, and once it is
  -- no longer.
  pub record Registered (h : ErrorHandler Text C) (callback : C) (e : Error Text) : Type 0 where
    pub called :
        invoke_callbacks (register_callback h callback).1 e
        ≡ map (λ p. (p.1, e)) h.callbacks
          ++ ((callback, e) ∷ map (λ p. (p.1, e)) (in_category h e.category))
    pub removed :
        invoke_callbacks
          (unregister_callback (register_callback h callback).1 (register_callback h callback).0)
          e
        ≡ invoke_callbacks h e
    pub called_in :
        invoke_callbacks (register_category_callback h e.category callback).1 e
        ≡ invoke_callbacks h e ++ ((callback, e) ∷ [])
    pub removed_in :
        invoke_callbacks
          (unregister_category_callback
            (register_category_callback h e.category callback).1
            e.category
            (register_category_callback h e.category callback).0)
          e
        ≡ invoke_callbacks h e
