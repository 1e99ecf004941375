-- ===== src/Jobs/Pods/NewFile.antt =====
-- The pod for a new file belongs to the source of the file's directory, unless an earlier source of
-- the same scheme has a path that occurs in it.
use mathlib.Core.Bool.{true≢false}
use churro.Common.{
  ap, sym, eq_refl, ◌∙◌, if◌then◌else◌, String, List, [], ◌∷◌, ◌++◌, Bool, true, false, not, ◌≡◌,
  refl, ◌==◌, ◌&&◌, ◌||◌,
}
use churro.Common.Action.{ok, of_result, ◌>>=◌}
use churro.Common.Ensures.{Ends, Ensures, Ensures-bind, Ensures-write, Ensures-refuse-then}
use churro.Cluster.{Api, Cluster, Pod, ExtractSourceDefinition, kube_client, create_pod}
use churro.Cluster.Specs.{attempt-Ensures, fetch-Ensures, fresh-Ensures}
use churro.Jobs.Paths.{occurs, base_dir}
use churro.Jobs.Pods.{
  Settings, get_table, is_fed, pod_definition, create_extract_pod, extract_for, new_file_loop,
  create_extract_pod_for_new_file,
}

-- The sources that the code goes past on its way to `c`, in both of its loops.
abbrev pub Passed : String → String → String → List ExtractSourceDefinition → Type 0
Passed dir base scheme [] = Unit
Passed dir base scheme (x ∷ l) =
    (((is_fed x.scheme || not (dir == x.path)) ≡ true)
      × ((x.scheme == scheme && occurs x.path base) ≡ false))
    × Passed dir base scheme l

module _ (dir base : String) (c : ExtractSourceDefinition)
    (later : List ExtractSourceDefinition) where
  get_table-first :
      (earlier : List ExtractSourceDefinition)
      → Passed dir base c.scheme earlier
      → (c.scheme == c.scheme && occurs c.path base) ≡ true
      → get_table base c.scheme (earlier ++ (c ∷ later)) ≡ ok (c.name, c.tablename)
  get_table-first [] p h = rw h refl
  get_table-first (x ∷ l) (p, ps) h = rw p.1 (get_table-first l ps h)

-- The two tests of the loop that send it to the next source.
go_on :
    {A : Type 0} (fed here : Bool) (m n : A)
    → (fed || not here) ≡ true
    → (if fed then n else if here then m else n) ≡ n
go_on true here m n h = refl
go_on false false m n h = refl
go_on false true m n h = absurd (true≢false (sym h))

module _ (api : Api) (settings : Settings) (file dir : String) (c : ExtractSourceDefinition)
    (later : List ExtractSourceDefinition) where
  new_file_loop-first :
      (sources earlier : List ExtractSourceDefinition) (base scheme : String)
      → Passed dir base scheme earlier
      → is_fed c.scheme ≡ false
      → (dir == c.path) ≡ true
      → new_file_loop api settings file dir sources (earlier ++ (c ∷ later))
        ≡ extract_for api settings file sources c
  new_file_loop-first sources [] base scheme p fed same = rw (fed, same) refl
  new_file_loop-first sources (x ∷ l) base scheme (p, ps) fed same =
      go_on (is_fed x.scheme) (dir == x.path) _ _ p.0
      ∙ new_file_loop-first sources l base scheme ps fed same

-- The pods are those of before.
abbrev pub Same : List Pod → Cluster → Type 0
Same pods s = s.pods ≡ pods

module _ (settings : Settings) (file : String) (pods : List Pod) where
  -- One more pod stands behind those of before.
  abbrev pub Gained : String → String × String → Cluster → Type 0
  Gained scheme target t =
      (suffix : String) × ((log : String) × (t.pods
          ≡ pods ++ (pod_definition settings suffix log scheme target file ∷ [])))

module _ (api : Api) (settings : Settings) (file : String) (pods : List Pod) where
  create_extract_pod-Gained :
      (scheme : String) (target : String × String)
      → Ensures
          (Same pods)
          (create_extract_pod api settings file scheme target)
          (λ _. Gained settings file pods scheme target)
          (Same pods)
  unfolding create_extract_pod
  create_extract_pod-Gained scheme target =
      Ensures-refuse-then _ _ (λ s h. h)
        λ _. Ensures-bind (fresh-Ensures api (λ s h. h)) λ suffix.
          Ensures-bind (fresh-Ensures api (λ s h. h)) λ log.
            Ensures-bind (attempt-Ensures api create_pod (λ s h. h) (λ s h. h))
              λ _. Ensures-write _ (λ s h. (suffix, (log, rw h refl)))

  extract_for-Gained :
      (sources : List ExtractSourceDefinition) (c : ExtractSourceDefinition)
      (target : String × String)
      → get_table (base_dir file) c.scheme sources ≡ ok target
      → Ensures
          (Same pods)
          (extract_for api settings file sources c)
          (λ _. Gained settings file pods c.scheme target)
          (Same pods)
  unfolding extract_for of_result ◌>>=◌
  extract_for-Gained sources c target e = record {
    at = λ s h.
        rw (e, of_result)
          ((Ensures-bind (attempt-Ensures api kube_client (λ s h. h) (λ s h. h))
              λ _. create_extract_pod-Gained c.scheme target).at
            s h);
  }

-- For a new file in the directory of a source, where no source before it has that directory or, at
-- its scheme, a path that occurs in the directory of the file: on success one pod was created, for
-- this file and with the scheme, the name and the table of this source; on an error none was.
pub create_extract_pod_for_new_file_lem :
    (api : Api) (settings : Settings) (file dir : String)
    (earlier later : List ExtractSourceDefinition) (c : ExtractSourceDefinition) (s : Cluster)
    → s.pipeline.extractsources ≡ earlier ++ (c ∷ later)
    → Passed dir (base_dir file) c.scheme earlier
    → is_fed c.scheme ≡ false
    → (dir == c.path) ≡ true
    → occurs c.path (base_dir file) ≡ true
    → Ends
        (λ _. Gained settings file s.pods c.scheme (c.name, c.tablename))
        (Same s.pods)
        (create_extract_pod_for_new_file api settings file dir s)
unfolding create_extract_pod_for_new_file
create_extract_pod_for_new_file_lem api settings file dir earlier later c s stored passed fed here
      inside =
    (Ensures-bind
        (fetch-Ensures api {P = λ t. Same s.pods t × (t.pipeline ≡ s.pipeline)}
          {Q = λ p t. (p.extractsources ≡ earlier ++ (c ∷ later)) × Same s.pods t} (λ t h. h)
          (λ t h. h.0) (λ t h. (ap (λ p. p.extractsources) h.1 ∙ stored, h.0)))
        λ p. record {
          at = λ t h.
              rw
                (
                  h.0,
                  new_file_loop-first api settings file dir c later (earlier ++ (c ∷ later)) earlier
                      (base_dir file) c.scheme passed fed here,
                )
                ((extract_for-Gained api settings file s.pods (earlier ++ (c ∷ later)) c
                    (c.name, c.tablename)
                    (get_table-first dir (base_dir file) c later earlier passed
                      (rw (eq_refl c.scheme, inside) refl))).at
                  t h.1);
        }).at
      s (refl, refl)
