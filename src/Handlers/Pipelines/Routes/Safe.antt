-- ===== src/Handlers/Pipelines/Routes/Safe.antt =====
-- A pipeline outlives the requests of users who may not administer it.
use text.Mathlib.TextEquality.{eq_iff}
use mathlib.Core.Bool.{true≢false}
use churro.Common.{
  true, false, String, List, [], ◌∷◌, Option, none, some, ◌==◌, ◌≡◌, refl, sym, ap, ◌∙◌, Bool-cases,
  inl, inr,
}
use churro.Common.Int.{ℤ}
use churro.Common.Text.{atoi}
use churro.Common.Action.{Result, ok, err}
use churro.Common.Keeps.{Keeps, Keeps-give, Keeps-panic, Keeps-if, Keeps-bind, Keeps-after}
use churro.Authorization.{action_admin}
use churro.Pipelines.{PipelineCr}
use churro.Handlers.{Request, var}
use churro.Handlers.Pages.{Wrapper}
use churro.Handlers.Pages.Keeping.{
  Keeps-form_value, Keeps-or_else-result, Keeps-or_else, Keeps-or_else-knowing,
}
use churro.Handlers.Pipelines.{
  Detail, DetailClient, PipelineWeb, may, last_name, show_create_pipeline, ask, show_status,
  show_connected, pipeline_detail_handler, detail_error, rewrite_pipeline, update_pipeline_detail,
  launch, create_pipeline_detail, delete_pipeline_detail, delete_each, delete_pipelines,
  pipeline_download_file, get_selected_pipelines,
}
use churro.Handlers.Pipelines.Routes.{
  PipelineRoute, to_show_create, to_create, to_detail, to_update, to_delete_selected, to_delete,
  to_download, visit, visit_all,
}
use churro.Handlers.Pipelines.Routes.Present.{Present}
use churro.Handlers.Pipelines.Routes.Stored.{
  Stored, Watched, P, Found, Knows, leaving, list-Fits, get-Fits, delete-Keeps, create-Keeps,
  update-Keeps,
}

module _ {K : Type 0} (c : Watched K) where
  show_create-Keeps : (u : Wrapper) → Keeps (P c) (show_create_pipeline c.web u)
  unfolding show_create_pipeline
  show_create-Keeps u =
      Keeps-or_else-result _ _ _ (λ e. Keeps-give _)
        λ _ _.
          Keeps-or_else _ _ _ (leaving c c.stored.storage_classes) (λ e. Keeps-give _)
            λ names.
              Keeps-or_else _ _ _ (leaving c c.stored.supported_databases) (λ e. Keeps-give _)
                λ dbs. Keeps-give _

  connected-Keeps :
      (n : String) (o : Result (DetailClient K)) (d : Detail)
      → c.web.connect n ≡ o
      → Keeps (P c) (show_connected c.web o d)
  unfolding show_connected ask show_status
  connected-Keeps n (err e) d h = Keeps-panic
  connected-Keeps n (ok ctl) d h =
      let calls = c.stored.client n ctl h in
      Keeps-or_else _ _ _ (leaving c calls.0) (λ e. Keeps-give _)
        λ text.
          Keeps-or_else-result _ _ _ (λ e. Keeps-give _)
            λ functions _.
              Keeps-or_else _ _ _ (leaving c calls.1) (λ e. Keeps-give _)
                λ url.
                  Keeps-or_else _ _ _ (leaving c calls.2) (λ e. Keeps-panic)
                    λ answer.
                      Keeps-or_else-result _ _ _ (λ e. Keeps-give _)
                        λ sources _.
                          Keeps-or_else _ _ _ (leaving c calls.3) (λ e. Keeps-give _)
                            λ status.
                              Keeps-or_else-result _ _ _ (λ e. Keeps-give _) λ _ _. Keeps-give _

  detail-Keeps : (u : Wrapper) (r : Request) → Keeps (P c) (pipeline_detail_handler c.web u r)
  unfolding pipeline_detail_handler
  detail-Keeps u r = Keeps-if _ _ _ (Keeps-give _) (
      Keeps-or_else-result _ _ _ (λ e. Keeps-give _)
        λ _ _.
          Keeps-or_else-result _ _ _ (λ e. Keeps-give _)
            λ _ _.
              Keeps-or_else-result _ _ _ (λ e. Keeps-give _)
                λ users _.
                  Keeps-or_else-knowing {Fact = Found c (var "id" r)} (get-Fits c (var "id" r))
                    (λ e. Keeps-give _) λ x _. connected-Keeps x.name (c.web.connect x.name) _ refl)

  rewrite-Keeps :
      (u : Wrapper) (r : Request) (k : String) → Keeps (P c) (rewrite_pipeline c.web u r k)
  unfolding rewrite_pipeline
  rewrite-Keeps u r k = Keeps-if _ _ _ (detail-Keeps _ r) (
      Keeps-or_else-knowing {Fact = Found c k} (get-Fits c k) (λ e. Keeps-give _)
        λ x (_, fits).
          Keeps-or_else _ _ _
            (Keeps-bind _ _ (leaving c c.stored.kube_client)
              λ _. leaving c (c.stored.new_client x.name))
            (λ e. Keeps-give _)
            λ _.
              Keeps-or_else _ _ _ (update-Keeps c x fits) (λ e. detail-Keeps _ r) λ _. Keeps-give _)

  update_detail-Keeps : (u : Wrapper) (r : Request) → Keeps (P c) (update_pipeline_detail c.web u r)
  unfolding update_pipeline_detail
  update_detail-Keeps u r = Keeps-form_value _ _ λ k _. Keeps-if _ _ _ (detail-Keeps _ r) (
      Keeps-form_value _ _ λ headroom _. Keeps-if _ _ _ (detail-Keeps _ r) (
        Keeps-form_value _ _ λ size _.
          Keeps-if _ _ _ (detail-Keeps _ r) (sized k headroom (atoi size) (atoi headroom))))
    where
      sized :
          (k headroom : String) (a b : Option ℤ)
          → Keeps (P c) (elim a [
            | none ↦ detail_error c.web u r "invalid loader queue size"
            | some _ ↦ elim b [
              | none ↦ detail_error c.web u r "invalid loader pct head room"
              | some _ ↦ rewrite_pipeline c.web u r k
            ]
          ])
      sized k headroom none b = detail-Keeps _ r
      sized k headroom (some _) none = detail-Keeps _ r
      sized k headroom (some _) (some _) = rewrite-Keeps u r k

  create_detail-Keeps : (u : Wrapper) (r : Request) → Keeps (P c) (create_pipeline_detail c.web u r)
  unfolding create_pipeline_detail launch
  create_detail-Keeps u r = Keeps-form_value _ _ λ n _. Keeps-form_value _ _ λ _ _.
      Keeps-form_value _ _ λ _ _. Keeps-form_value _ _ λ _ _. Keeps-form_value _ _ λ _ _.
        Keeps-form_value _ _ λ _ _. Keeps-form_value _ _ λ _ _. Keeps-form_value _ _ λ _ _.
          search
            (
              Keeps-if,
              Keeps-or_else-result,
              Keeps-or_else,
              create-Keeps c,
              show_create-Keeps,
              Keeps-give,
            )
            depth 12

  download-Keeps : (u : Wrapper) (r : Request) → Keeps (P c) (pipeline_download_file c.web u r)
  unfolding pipeline_download_file
  download-Keeps u r =
      Keeps-or_else-knowing {Fact = Found c (var "id" r)} (get-Fits c (var "id" r))
        (λ e. Keeps-give _)
        λ x _. Keeps-or_else-result _ _ _ (λ e. show_create-Keeps _) λ _ _. Keeps-give _

  module _ (u : Wrapper) (powerless : may c.web u c.id action_admin ≡ false) where
    other :
        (k n : String)
        → may c.web u k action_admin ≡ true
        → (n ≡ c.name → k ≡ c.id)
        → (n == c.name) ≡ false
    other k n may_do fits = elim (Bool-cases (n == c.name)) [
      | inl e ↦ absurd (
          true≢false (
            sym may_do
            ∙ ap (λ i. may c.web u i action_admin) (fits ((eq_iff n c.name).0 e))
            ∙ powerless))
      | inr e ↦ e
    ]

    delete_detail-Keeps : (r : Request) → Keeps (P c) (delete_pipeline_detail c.web u r)
    unfolding delete_pipeline_detail
    delete_detail-Keeps r = elim (Bool-cases (may c.web u (var "id" r) action_admin)) [
      | inl may_do ↦ rw may_do (
          Keeps-or_else-knowing {Fact = Found c (var "id" r)} (get-Fits c (var "id" r))
            (λ e. Keeps-give _)
            λ x (same, fits).
              Keeps-or_else _ _ _
                (delete-Keeps c x.name (other (var "id" r) x.name may_do (λ e. sym same ∙ fits e)))
                (λ e. Keeps-give _) λ _. Keeps-give _)
      | inr may_not ↦ rw may_not (Keeps-give _)
    ]

    each-Keeps :
        (l : List PipelineCr) (ids : List String)
        → Knows c l
        → Keeps (P c) (delete_each c.web u l ids)
    unfolding delete_each
    each-Keeps l [] knows = Keeps-give _
    each-Keeps l (k ∷ ids) knows = elim (Bool-cases (may c.web u k action_admin)) [
      | inl may_do ↦ rw may_do (
          Keeps-or_else _ _ _
            (delete-Keeps c (last_name k "" l) (other k (last_name k "" l) may_do (knows.1 k)))
            (λ e. Keeps-give _) λ _. each-Keeps l ids knows)
      | inr may_not ↦ rw may_not (Keeps-give _)
    ]

    delete_selected-Keeps : (r : Request) → Keeps (P c) (delete_pipelines c.web u r)
    unfolding delete_pipelines
    delete_selected-Keeps r =
        Keeps-or_else-knowing {Fact = Knows c} (list-Fits c) (λ e. Keeps-give _)
          λ l knows. each-Keeps l (get_selected_pipelines r.form) knows

    visit-Keeps : (route : PipelineRoute) (r : Request) → Keeps (P c) (visit c.web route u r)
    unfolding visit
    visit-Keeps to_show_create r = show_create-Keeps u
    visit-Keeps to_create r = create_detail-Keeps u r
    visit-Keeps to_detail r = detail-Keeps u r
    visit-Keeps to_update r = update_detail-Keeps u r
    visit-Keeps to_delete_selected r = delete_selected-Keeps r
    visit-Keeps to_delete r = delete_detail-Keeps r
    visit-Keeps to_download r = download-Keeps u r

-- Nobody of these may administer the pipeline.
abbrev pub Powerless :
    {K : Type 0} → PipelineWeb K → String → List (PipelineRoute × Wrapper × Request) → Type 0
Powerless web id [] = Unit
Powerless web id ((route, u, r) ∷ l) = (may web u id action_admin ≡ false) × Powerless web id l

module _ {K : Type 0} (web : PipelineWeb K) (crs : K → List PipelineCr) (stored : Stored web crs)
    (name id : String) (named : (name == "") ≡ false) where
  -- Over Kubernetes as documented, while the admin database stays as it is: a pipeline with a name that
  -- is not empty, of which every resource of that name has the ID, is still there after any requests to
  -- the pages of pipelines by users who may not administer that ID, in any order and whatever fails.
  pub visit_all-Present :
      (requests : List (PipelineRoute × Wrapper × Request))
      → Powerless web id requests
      → (s : K) → Present name id (crs s)
      → Present name id (crs (visit_all web requests s))
  unfolding visit_all
  visit_all-Present [] h s x = x
  visit_all-Present ((route, u, r) ∷ l) (h, hs) s x =
      visit_all-Present l hs (visit web route u r s).1
        (Keeps-after (visit web route u r) (visit-Keeps watched u h route r) s x)
    where
      watched : Watched K
      watched = record {
        web = web;
        crs = crs;
        stored = stored;
        name = name;
        id = id;
        named = named;
      }
