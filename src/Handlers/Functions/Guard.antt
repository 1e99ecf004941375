-- ===== src/Handlers/Functions/Guard.antt =====
-- Nobody who may not write a pipeline changes its functions.
use churro.Common.{false, String, some, ◌≡◌, ◌==◌}
use churro.Common.Action.{ok}
use churro.Common.Keeps.{Keeps, Keeps-give, Keeps-if, Keeps-after}
use churro.Handlers.{Request, value_at, var}
use churro.Handlers.Pages.Keeping.{Keeps-form_value, Keeps-or_else-result, Keeps-or_else}
use churro.Handlers.Pages.{Wrapper, copy}
use churro.Handlers.Functions.{
  FunctionClient, FunctionWeb, may_write, show_create_transform_function, transform_function,
  create_transform_function, change_checked, change_named, update_transform_function,
  delete_transform_function,
}

module _ {C : Type 0} (web : FunctionWeb C) (P : C → Type 0) where
  -- Reading a function, and the page of the pipeline, keep the predicate.
  pub record Reading : Type 0 where
    pub client :
        (name : String) (c : FunctionClient C)
        → web.connect name ≡ ok c
        → (id : String) → Keeps P (c.get_transform_function id)
    pub detail : (u : Wrapper) (r : Request) → Keeps P (web.detail u r)

  module _ (reading : Reading) where
    show_create-Keeps :
        (u : Wrapper) (r : Request) → Keeps P (show_create_transform_function web u r)
    unfolding show_create_transform_function
    show_create-Keeps u r =
        Keeps-or_else-result _ _ _ (λ e. Keeps-give _)
          λ name h. Keeps-or_else-result _ _ _ (λ e. Keeps-give _) λ _ h. Keeps-give _

    transform_function-Keeps : (u : Wrapper) (r : Request) → Keeps P (transform_function web u r)
    unfolding transform_function
    transform_function-Keeps u r =
        Keeps-or_else-result _ _ _ (λ e. Keeps-give _)
          λ name h. Keeps-or_else-result _ _ _ fails λ c reached.
            Keeps-or_else _ _ _ (reading.client name c reached (var "tfid" r)) fails λ text.
              Keeps-or_else-result _ _ _ fails
                λ f h. Keeps-or_else-result _ _ _ fails λ _ h. Keeps-give _
      where
        fails : (e : String) → Keeps P (web.detail (copy u e) r)
        fails e = reading.detail (copy u e) r

    module _ (u : Wrapper) (r : Request) where
      -- The user may not write the pipeline of the form.
      abbrev pub Denied : Type 0
      Denied = (p : String) → value_at "pipelineid" r.form ≡ some p → may_write web u p ≡ false

      create-Keeps : Denied → Keeps P (create_transform_function web u r)
      unfolding create_transform_function
      create-Keeps denied = Keeps-form_value _ _ λ p h. Keeps-form_value _ _ λ q _.
          Keeps-form_value _ _
            λ n _. Keeps-form_value _ _ λ t _. rw (denied p h) (show_create-Keeps _ r)

      changes-Keeps :
          (p q n t : String) → may_write web u p ≡ false → Keeps P (change_checked web u r p q n t)
      unfolding change_checked
      changes-Keeps p q n t denied =
          Keeps-form_value _ _ λ i _. rw denied (transform_function-Keeps _ r)

      change_named-Keeps :
          (p q n : String) → may_write web u p ≡ false → Keeps P (change_named web u r p q n)
      unfolding change_named
      change_named-Keeps p q n denied = Keeps-form_value _ _ λ t _.
          Keeps-if (t == "") _ _ (transform_function-Keeps _ r) (
            Keeps-or_else-result _ _ _ (λ e. transform_function-Keeps _ r)
              (λ _ _. changes-Keeps p q n t denied))

      update-Keeps : Denied → Keeps P (update_transform_function web u r)
      unfolding update_transform_function
      update-Keeps denied = Keeps-form_value _ _ λ n _. Keeps-form_value _ _ λ p h.
          Keeps-form_value _ _ λ q _.
            Keeps-if (n == "") _ _ (transform_function-Keeps _ r)
              (change_named-Keeps p q n (denied p h))

      delete-Keeps :
          may_write web u (var "id" r) ≡ false → Keeps P (delete_transform_function web u r)
      unfolding delete_transform_function
      delete-Keeps denied = rw denied (transform_function-Keeps _ r)

  -- Where reading a function and showing the page of a pipeline keep a predicate of the state: so do
  -- the pages that create, update and delete a function, on every path, for a user who may not write
  -- the pipeline whose ID is in the form, or for a deletion in the route.
  pub change_functions-Denied :
      Reading
      → (u : Wrapper) (r : Request)
      → ((p : String) → value_at "pipelineid" r.form ≡ some p → may_write web u p ≡ false)
      → may_write web u (var "id" r) ≡ false
      → (s : C) → P s
      → P (create_transform_function web u r s).1
        × P (update_transform_function web u r s).1
        × P (delete_transform_function web u r s).1
  change_functions-Denied reading u r form route s h = (
    Keeps-after _ (create-Keeps reading u r form) s h,
    Keeps-after _ (update-Keeps reading u r form) s h,
    Keeps-after _ (delete-Keeps reading u r route) s h,
  )
