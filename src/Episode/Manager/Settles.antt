-- ===== src/Episode/Manager/Settles.antt =====
-- An assembly that holds the claim of its episode gives it up, whatever Resolve does.
use redline_os.Prelude.{
  ℕ, String, Bool, true, false, not, ◌≡◌, refl, ap, ◌∙◌, inl, inr, Option, none, some, List, [],
  ◌∷◌, length, any, if◌then◌else◌,
}
use redline_os.Prelude.Text.{is_blank}
use redline_os.Errors.{Error, Stage, episode_build_error, value_error, format_error}
use redline_os.Exec.{
  Result, ok, err, Exec, pure, raise, require, or_raise, attempt, after_ok, Result-cases,
  after_ok-ok, after_ok-err, after_error-ok, after_error-err, ◌>>=◌, ◌>>◌,
}
use redline_os.Store.Rows.{failed}
use redline_os.Store.Sql.{Db}
use redline_os.Store.Episodes.{release_assembly_claim}
use redline_os.Episode.World.{MarkerDefinition, Outside, Texts, Config, World, on_db, outside_of}
use redline_os.Episode.Definition.{are_ordered_ids}
use redline_os.Episode.Manager.{
  TimelineBuildResult, build_error, apply_markers, build_timeline_for_episode, import_media,
  validate_ids,
}

-- The method leaves the store alone.
pub record Outer {O : Outside} {A : Type 0} (m : Exec (World O) A) : Type 0 where
  pub at : (w : World O) → (m w).1.db ≡ w.db

module _ {O : Outside} {A : Type 0} where
  pub Outer-outside_of : (m : Exec O.State A) → Outer {O = O} (outside_of m)
  unfolding outside_of
  Outer-outside_of m = record { at = λ w. refl }

  Outer-pure : (a : A) → Outer {O = O} (pure a)
  Outer-pure a = record { at = λ w. refl }

  Outer-or_raise : (e : Error) (o : Option A) → Outer {O = O} (or_raise e o)
  Outer-or_raise e none = record { at = λ w. refl }
  Outer-or_raise e (some a) = record { at = λ w. refl }

  Outer-bind :
      {B : Type 0} (m : Exec (World O) A) (f : A → Exec (World O) B)
      → Outer m
      → ((a : A) → Outer (f a))
      → Outer (m >>= f)
  Outer-bind m f first rest = record {
    at = λ w. elim (Result-cases (m w).0) [
      | inl (e, raises) ↦ ap (λ p. p.1.db) (after_ok-err f (m w) e raises) ∙ first.at w
      | inr (a, returns) ↦
          ap (λ p. p.1.db) (after_ok-ok f (m w) a returns) ∙ (rest a).at (m w).1 ∙ first.at w
    ];
  }

Outer-require : {O : Outside} (b : Bool) (e : Error) → Outer {O = O} (require b e)
Outer-require true e = record { at = λ w. refl }
Outer-require false e = record { at = λ w. refl }

-- From a store `db`, a method ends in the store `good`, or with an EpisodeBuildError in the store in
-- which the claim has been released as failed.
module _ (O : Outside) (T : Texts) (config : Config) (episode_id token : String) (db : Db) where
  abbrev pub failed_db : Db
  failed_db = (release_assembly_claim episode_id token failed db).1

  pub data Settled (A : Type 0) (good : Db) (p : Result A × World O) : Type 0 where
    done : (a : A) → p.0 ≡ ok a → p.1.db ≡ good → Settled A good p
    gave_up :
        (stage : Stage)
        → p.0 ≡ err (episode_build_error stage)
        → p.1.db ≡ failed_db
        → Settled A good p

  pub record Settles {A : Type 0} (good : Db) (m : Exec (World O) A) : Type 0 where
    pub at : (w : World O) → w.db ≡ db → Settled A good (m w)

  released_db :
      (w : World O)
      → w.db ≡ db
      → (attempt (on_db {O = O} (release_assembly_claim episode_id token failed)) (λ e. pure tt) w)
        ≡ (ok tt, record w { db = failed_db })
  unfolding on_db
  released_db w same =
      let released = on_db {O = O} (release_assembly_claim episode_id token failed) w in
      let after : released.1 ≡ record w { db = failed_db } =
        ap (λ d. record w { db = (release_assembly_claim episode_id token failed d).1 }) same in
      elim (Result-cases released.0) [
        | inl (e, raises) ↦
            after_error-err (λ e. pure tt) released e raises ∙ ap (λ v. (ok tt, v)) after
        | inr (u, returns) ↦
            after_error-ok (λ e. pure tt) released u returns ∙ λ i. (returns i, after i)
      ]

  module _ {A : Type 0} (good : Db) where
    pub Settles-build_error :
        (stage : Stage) → Settles good (build_error O T config {A = A} stage episode_id token)
    unfolding build_error
    Settles-build_error stage = record {
      at = λ w same.
          let ends =
            ap (λ p. after_ok p (λ u. raise {A = A} (episode_build_error stage)))
              (released_db w same) in
          gave_up stage (ap (λ p. p.0) ends) (ap (λ p. p.1.db) ends);
    }

    pub Settles-bind :
        {B : Type 0} (m : Exec (World O) B) (f : B → Exec (World O) A)
        → Settles db m
        → ((b : B) → Settles good (f b))
        → Settles good (m >>= f)
    Settles-bind m f first rest = record { at = λ w same. go w (first.at w same) }
      where
        go : (w : World O) → Settled _ db (m w) → Settled A good (after_ok (m w) f)
        go w (done b returns same) = rw (after_ok-ok f (m w) b returns) ((rest b).at (m w).1 same)
        go w (gave_up stage raises settled) =
            rw (after_ok-err f (m w) (episode_build_error stage) raises)
              (gave_up stage refl settled)

  module _ {A : Type 0} where
    pub Settles-attempt :
        (m : Exec (World O) A) (handler : Error → Exec (World O) A)
        → Outer m
        → ((w : World O) (e : Error) → (m w).0 ≡ err e → Settles db (handler e))
        → Settles db (attempt m handler)
    Settles-attempt m handler outer handles = record {
      at = λ w same. elim (Result-cases (m w).0) [
        | inl (e, raises) ↦
            rw (after_error-err handler (m w) e raises)
              ((handles w e raises).at (m w).1 (outer.at w ∙ same))
        | inr (a, returns) ↦
            rw (after_error-ok handler (m w) a returns) (done a returns (outer.at w ∙ same))
      ];
    }

    Settles-pure : (a : A) → Settles db (pure a)
    Settles-pure a = record { at = λ w same. done a refl same }

  pub Settles-validate :
      (stage : Stage) (ids : List String) (n : ℕ)
      → Settles db (validate_ids O T config token stage episode_id ids n)
  unfolding validate_ids
  Settles-validate stage ids n =
      elim (are_ordered_ids ids n)
        as (λ b.
          Settles db (if b then pure tt else build_error O T config stage episode_id token)) [
            | true ↦ Settles-pure tt
            | false ↦ Settles-build_error db stage
          ]

  pub Settles-stage :
      {A : Type 0} (stage : Stage) (m : Exec (World O) A)
      → Outer m
      → Settles db (attempt m (λ e. build_error O T config stage episode_id token))
  Settles-stage stage m outer =
      Settles-attempt m (λ e. build_error O T config stage episode_id token) outer
        λ w e raises. Settles-build_error db stage

  pub Outer-import :
      (project_name : String) (paths : List String) (bin_name : String)
      → Outer (import_media O T config project_name paths bin_name)
  unfolding import_media
  Outer-import project_name paths bin_name =
      let call = outside_of {O = O} (O.import_media project_name paths bin_name) in
      Outer-bind (require (not (is_blank bin_name)) value_error)
        (λ _. require (not (any is_blank paths)) value_error >> call)
        (Outer-require (not (is_blank bin_name)) value_error)
        λ _.
          Outer-bind (require (not (any is_blank paths)) value_error) (λ _. call)
            (Outer-require (not (any is_blank paths)) value_error)
            λ _. Outer-outside_of (O.import_media project_name paths bin_name)

  Outer-markers :
      (project_name timeline_name : String) (markers : List MarkerDefinition)
      → Outer (apply_markers O T config project_name timeline_name markers)
  unfolding apply_markers
  Outer-markers project_name timeline_name [] = Outer-pure 0
  Outer-markers project_name timeline_name (m ∷ ms) =
      Outer-bind (outside_of (O.add_markers project_name timeline_name (m ∷ ms)))
        (λ _. pure (length (m ∷ ms)))
        (Outer-outside_of (O.add_markers project_name timeline_name (m ∷ ms)))
        λ _. Outer-pure (length (m ∷ ms))

  pub Outer-timeline :
      (project_name : String) (markers : List MarkerDefinition)
      → Outer (build_timeline_for_episode O T config project_name episode_id markers)
  unfolding build_timeline_for_episode
  Outer-timeline project_name markers =
      let made = λ (name id : String) (n : ℕ).
        pure {S = World O} {A = TimelineBuildResult}
          (record { timeline_id = id; timeline_name = name; markers_applied = n }) in
      let marked =
        λ (name id : String). apply_markers O T config project_name name markers >>= made name id in
      let built = λ (name : String). outside_of {O = O} (O.build_timeline project_name name) in
      let named =
        or_raise {S = World O} format_error
          (T.format config.timeline_name_pattern (("episode_id", episode_id) ∷ [])) in
      Outer-bind named (λ name. built name >>= marked name)
        (Outer-or_raise format_error
          (T.format config.timeline_name_pattern (("episode_id", episode_id) ∷ [])))
        λ name.
          Outer-bind (built name) (marked name)
            (Outer-outside_of (O.build_timeline project_name name))
            λ id.
              Outer-bind (apply_markers O T config project_name name markers) (made name id)
                (Outer-markers project_name name markers)
                λ n.
                  Outer-pure
                    (record { timeline_id = id; timeline_name = name; markers_applied = n })
