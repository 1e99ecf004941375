-- ===== src/Handlers/Pipelines/Routes/Stored.antt =====
-- What Kubernetes keeps of pipelines, and what the calls of internal/pipeline leave of one.
use mathlib.Core.Bool.{true≢false}
use churro.Common.{
  false, String, List, [], ◌∷◌, ◌++◌, Option, none, some, ◌==◌, ◌≡◌, refl, sym, ◌∙◌, eq_refl,
}
use churro.Common.Action.{ok, Outcome, returned, failed, panicked, Action, fail}
use churro.Common.Ensures.{Ends, Ensures, Ensures-give, Ensures-bind, Ensures-weaken}
use churro.Common.Keeps.{Keeps, Keeps-give, Keeps-if, Keeps-bind, Keeps-rescue}
use churro.Ctl.Removal.{has, without}
use churro.Ctl.Rewriting.{edited}
use churro.Pipelines.{
  PipelineCr, with_id, found_cr, ensure_namespace, create_pipeline, delete_pipeline, list_pipelines,
  get_pipeline_cr, fill_cr_defaults,
}
use churro.Handlers.Pipelines.{DetailClient, PipelineWeb, last_name}
use churro.Handlers.Pipelines.Routes.Present.{
  Present, with_id-Ids, last_name-Ids, without-Present, append-Present, edited-Present,
}

module _ {K : Type 0} (crs : K → List PipelineCr) where
  abbrev pub Same : K → K → Type 0
  Same s t = crs t ≡ crs s

  -- The call reads or changes other things only.
  abbrev pub Leaves : {A : Type 0} → Action K A → Type 0
  Leaves m = (s : K) → Ends (λ _. Same s) (Same s) (m s)

module _ {K : Type 0} (web : PipelineWeb K) (crs : K → List PipelineCr) where
  -- What Kubernetes does with the custom resources of pipelines: a name occurs once, a call that fails
  -- changes nothing, and nothing else that the pages call has to do with them.
  pub record Stored : Type 0 where
    pub kube_client : Leaves crs web.kube.kube_client
    pub new_client : (n : String) → Leaves crs (web.kube.new_client n)
    pub has_namespace : (n : String) → Leaves crs (web.kube.has_namespace n)
    pub create_namespace : (n : String) → Leaves crs (web.kube.create_namespace n)
    pub list : (s : K) → Ends (λ l t. (l ≡ crs s) × Same crs s t) (Same crs s) (web.kube.list s)
    pub create :
        (x : PipelineCr) (s : K)
        → Ends
            (λ _ t. (has (λ y. y.name) x.name (crs s) ≡ false) × (crs t ≡ crs s ++ (x ∷ [])))
            (Same crs s)
            (web.kube.create x s)
    pub update :
        (x : PipelineCr) (s : K)
        → Ends
            (λ _ t. crs t ≡ edited (λ y. y.name) x.name (λ _. x) (crs s))
            (Same crs s)
            (web.kube.update x s)
    pub delete :
        (n : String) (s : K)
        → Ends (λ _ t. crs t ≡ without (λ y. y.name) n (crs s)) (Same crs s) (web.kube.delete n s)
    pub storage_classes : Leaves crs web.storage_classes
    pub supported_databases : Leaves crs web.supported_databases
    pub client :
        (n : String) (c : DetailClient K)
        → web.connect n ≡ ok c
        → Leaves crs c.get_transform_functions
          × Leaves crs c.get_database_console_url
          × Leaves crs c.get_extract_sources
          × Leaves crs c.get_pipeline_status

-- The pages over Kubernetes, and a pipeline: its name, which is not empty, and its ID
pub record Watched (K : Type 0) : Type 1 where
  pub web : PipelineWeb K
  pub crs : K → List PipelineCr
  pub stored : Stored web crs
  pub name : String
  pub id : String
  pub named : (name == "") ≡ false

module _ {K : Type 0} (c : Watched K) where
  abbrev pub P : K → Type 0
  P s = Present c.name c.id (c.crs s)

  abbrev pub Fits : PipelineCr → Type 0
  Fits x = x.name ≡ c.name → x.id ≡ c.id

  -- What a list of the resources tells of the pipeline
  abbrev pub Knows : List PipelineCr → Type 0
  Knows l =
      ((k : String) (x : PipelineCr) → with_id k l ≡ some x → (x.id ≡ k) × Fits x)
      × ((k : String) → last_name k "" l ≡ c.name → k ≡ c.id)

  pub stepping :
      {A : Type 0} {Fact : A → Type 0} {m : Action K A} (Q : K → A → K → Type 0)
      → ((s : K) → Ends (Q s) (Same c.crs s) (m s))
      → ((s : K) (a : A) (t : K) → P s → Q s a t → P t × Fact a)
      → Ensures P m (λ a t. P t × Fact a) P
  stepping {A = A} {Fact = Fact} {m = m} Q law keep = record { at = λ s x. go s x (m s) (law s) }
    where
      go :
          (s : K)
          → P s
          → (r : Outcome A × K) → Ends (Q s) (Same c.crs s) r
          → Ends (λ a t. P t × Fact a) P r
      go s x (returned a, t) h = keep s a t x h
      go s x (failed _, t) h = rw h x
      go s x (panicked, t) h = rw h x

  pub plainly : {A : Type 0} {m : Action K A} → Ensures P m (λ a t. P t × Unit {0}) P → Keeps P m
  plainly h = record { ensures = Ensures-weaken h (λ s x. x) (λ a s x. x.0) (λ s x. x) }

  pub leaving : {A : Type 0} {m : Action K A} → Leaves c.crs m → Keeps P m
  leaving h = plainly (stepping (λ s a t. Same c.crs s t) h (λ s a t x e. (rw e x, tt)))

  -- A resource that was found by its ID
  abbrev pub Found : String → PipelineCr → Type 0
  Found k x = (x.id ≡ k) × Fits x

  pub list-Fits : Ensures P (list_pipelines c.web.kube) (λ l t. P t × Knows l) P
  unfolding list_pipelines
  list-Fits = Ensures-bind (leaving c.stored.kube_client).ensures λ _.
      Ensures-bind (leaving (c.stored.new_client "")).ensures λ _.
        stepping {Fact = Knows} {m = c.web.kube.list} (λ s l t. (l ≡ c.crs s) × Same c.crs s t)
          c.stored.list
          λ s l t x (e, h). (
            rw h x,
            (
              (λ k y f. with_id-Ids c.name c.id k l y (rw e x.1) f),
              (λ k f.
                  last_name-Ids c.name c.id k "" l
                    (λ g. absurd (true≢false (sym (rw (sym g) (eq_refl "")) ∙ c.named))) (rw e x.1)
                    f),
            ),
          )

  pub get-Fits : (k : String) → Ensures P (get_pipeline_cr c.web.kube k) (λ x t. P t × Found k x) P
  unfolding get_pipeline_cr fail
  get-Fits k = Ensures-bind list-Fits λ l. found l (with_id k l) refl
    where
      found :
          (l : List PipelineCr) (o : Option PipelineCr)
          → with_id k l ≡ o
          → Ensures
              (λ t. P t × Knows l)
              (found_cr c.web.kube k (with_id k l))
              (λ x t. P t × Found k x)
              P
      found l none e = rw e (record { at = λ s x. x.0 })
      found l (some x) e = rw e (Ensures-give x (λ s h. (h.0, h.1.0 k x e)))

  pub delete-Keeps : (n : String) → (n == c.name) ≡ false → Keeps P (delete_pipeline c.web.kube n)
  unfolding delete_pipeline
  delete-Keeps n other = Keeps-bind _ _ (leaving c.stored.kube_client) λ _.
      Keeps-bind _ _ (leaving (c.stored.new_client n)) λ _. plainly (
        stepping (λ s a t. c.crs t ≡ without (λ y. y.name) n (c.crs s)) (c.stored.delete n)
          (λ s a t x e. (rw e (without-Present c.name c.id n (c.crs s) other x), tt)))

  pub create-Keeps : (x : PipelineCr) → Keeps P (create_pipeline c.web.kube x)
  unfolding create_pipeline ensure_namespace
  create-Keeps x = Keeps-bind _ _ (leaving c.stored.kube_client) λ _.
      Keeps-bind _ _
        (Keeps-bind _ _ (leaving (c.stored.has_namespace x.name)) λ b.
          Keeps-if b _ _ (Keeps-give tt) (
            Keeps-rescue _ _ _ (leaving (c.stored.create_namespace x.name)) (λ _. Keeps-give tt)
              (λ _. Keeps-give tt)))
        λ _. Keeps-bind _ _ (leaving (c.stored.new_client x.name)) λ _. plainly (
          stepping
            (λ s a t.
              (has (λ y. y.name) (fill_cr_defaults x.name x).name (c.crs s) ≡ false)
              × (c.crs t ≡ c.crs s ++ (fill_cr_defaults x.name x ∷ [])))
            (c.stored.create (fill_cr_defaults x.name x))
            (λ s a t p (new, e).
              (rw e (append-Present c.name c.id (c.crs s) (fill_cr_defaults x.name x) new p), tt)))

  pub update-Keeps : (x : PipelineCr) → Fits x → Keeps P (c.web.kube.update x)
  update-Keeps x fits = plainly (
      stepping {m = c.web.kube.update x}
        (λ s a t. c.crs t ≡ edited (λ y. y.name) x.name (λ _. x) (c.crs s)) (c.stored.update x)
        (λ s a t p e. (rw e (edited-Present c.name c.id x (c.crs s) fits p), tt)))
