-- ===== src/Store/Consistency/Rows.antt =====
-- The statements that write render_jobs and archives keep the tables consistent.
use redline_os.Prelude.{
  suc, String, Bool, true, false, ◌≡◌, refl, [], ◌∷◌, ◌++◌, Option, some, string_eq, nat_eq,
  option_eq, any, not, update, arith, Bool-cases, inl, inr, eq_of_==,
}
use redline_os.Prelude.Counting.{
  count-update, any-update, count-append, count_of_not_any, count-select-le, count-append_le_one,
  any-append_one, any-select,
}
use mathlib.Core.Option.{some-injective}
use redline_os.Store.Rows.{Tables, RenderJob, RenderJobStatus, ArchiveRecord}
use redline_os.Store.Sql.Keeps.{Writes}
use redline_os.Store.Episodes.{has_episode_id}
use redline_os.Store.RenderJobs.{
  occupies, is_taken, has_unique_outputs, has_job_id, new_job, insert_render_job,
  update_render_jobs, delete_render_jobs,
}
use redline_os.Store.RenderJobs.Outputs.{count-occupies}
use redline_os.Store.Archives.{
  is_archive_of, ArchiveCommit, insert_legacy_archive, verified_record, can_commit,
  insert_verified_archive,
}
use redline_os.Store.Consistency.{is_job_of, has_archive_id, IsConsistent}

pub update_render_jobs-Writes :
    (p : RenderJob → Bool) (f : RenderJob → RenderJob)
    → ((j : RenderJob) → (f j).id ≡ j.id)
    → ((j : RenderJob) → (f j).episode_id ≡ j.episode_id)
    → Writes IsConsistent (update_render_jobs p f)
unfolding update_render_jobs
update_render_jobs-Writes p f same_id same_episode = record {
  leaves = λ t h. elim (Bool-cases (has_unique_outputs (update p f t.render_jobs))) [
    | inl unique ↦ rw unique (record {
      episodes = record {
        fresh = h.episodes.fresh;
        row_ids = h.episodes.row_ids;
        numbers = h.episodes.numbers;
        episode_ids = h.episodes.episode_ids;
      };
      jobs = record {
        fresh = λ i lt.
            rw (count-update p (has_job_id i) f (λ j _. cc (same_id j))) (h.jobs.fresh i lt);
        job_ids =
            λ i. rw (count-update p (has_job_id i) f (λ j _. cc (same_id j))) (h.jobs.job_ids i);
        outputs = λ path. count-occupies path (update p f t.render_jobs) unique;
        owned = λ k owns.
            h.jobs.owned k (rw (any-update p (is_job_of k) f (λ j _. cc (same_episode j))) at owns);
      };
      archives = record { episodes = h.archives.episodes; archive_ids = h.archives.archive_ids };
    })
    | inr clash ↦ rw clash tt
  ];
}

module _ (t : Tables) (h : IsConsistent t) (job : RenderJob) where
  new_job-IsConsistent :
      job.id ≡ suc t.last_render_job
      → is_taken job t.render_jobs ≡ false
      → any (has_episode_id job.episode_id) t.episodes ≡ true
      → IsConsistent (record t {
        render_jobs = t.render_jobs ++ job ∷ [];
        last_render_job = suc t.last_render_job;
      })
  new_job-IsConsistent new free known = record {
    episodes = record {
      fresh = h.episodes.fresh;
      row_ids = h.episodes.row_ids;
      numbers = h.episodes.numbers;
      episode_ids = h.episodes.episode_ids;
    };
    jobs = record {
      fresh = λ i lt. ground (arith, count-append (has_job_id i) t.render_jobs job, h.jobs.fresh i);
      job_ids = λ i.
          ground (
            arith,
            count-append (has_job_id i) t.render_jobs job,
            h.jobs.fresh i,
            h.jobs.job_ids i,
          );
      outputs = λ path.
          count-append_le_one (occupies path) t.render_jobs job (h.jobs.outputs path)
            (λ hit. count_of_not_any (occupies path) t.render_jobs (ground arith));
      owned = λ k owns. elim (Bool-cases (any (is_job_of k) t.render_jobs)) [
        | inl before ↦ h.jobs.owned k before
        | inr fresh ↦
            rw
              (← eq_of_== job.episode_id k
                (ground (arith, any-append_one (is_job_of k) t.render_jobs job)))
              known
      ];
    };
    archives = record { episodes = h.archives.episodes; archive_ids = h.archives.archive_ids };
  }

pub insert_render_job-Writes :
    (episode_id preset : String) (resolve_job_id project timeline : Option String)
    (status : RenderJobStatus) (output_path : Option String) (now : String)
    → Writes IsConsistent
        (insert_render_job episode_id preset resolve_job_id project timeline status output_path now)
unfolding insert_render_job
insert_render_job-Writes episode_id preset resolve_job_id project timeline status output_path now =
    record {
      leaves = λ t h.
          let job =
            new_job (suc t.last_render_job) episode_id preset resolve_job_id project timeline status
              output_path now in
          elim (Bool-cases (is_taken job t.render_jobs)) [
            | inl taken ↦ rw taken tt
            | inr free ↦ elim (Bool-cases (any (has_episode_id episode_id) t.episodes)) [
              | inl known ↦ rw (free, known) (new_job-IsConsistent t h job refl free known)
              | inr unknown ↦ rw (free, unknown) tt
            ]
          ];
    }

pub delete_render_jobs-Writes : (p : RenderJob → Bool) → Writes IsConsistent (delete_render_jobs p)
unfolding delete_render_jobs
delete_render_jobs-Writes p = record {
  leaves = λ t h.
      let kept : RenderJob → Bool = λ j. not (p j) in
      record {
        episodes = record {
          fresh = h.episodes.fresh;
          row_ids = h.episodes.row_ids;
          numbers = h.episodes.numbers;
          episode_ids = h.episodes.episode_ids;
        };
        jobs = record {
          fresh = λ i lt.
              omega (arith, h.jobs.fresh i lt, count-select-le (has_job_id i) kept t.render_jobs);
          job_ids = λ i.
              omega (arith, h.jobs.job_ids i, count-select-le (has_job_id i) kept t.render_jobs);
          outputs = λ path.
              omega
                (arith, h.jobs.outputs path, count-select-le (occupies path) kept t.render_jobs);
          owned = λ k owns. h.jobs.owned k (any-select (is_job_of k) kept t.render_jobs owns);
        };
        archives = record { episodes = h.archives.episodes; archive_ids = h.archives.archive_ids };
      };
}

module _ (t : Tables) (h : IsConsistent t) (a : ArchiveRecord) where
  new_archive-IsConsistent :
      any (is_archive_of a.episode_id) t.archives ≡ false
      → ((k : String) → a.archive_id ≡ some k → any (has_archive_id k) t.archives ≡ false)
      → IsConsistent
          (record t { archives = t.archives ++ a ∷ []; last_archive = suc t.last_archive })
  new_archive-IsConsistent first unused = record {
    episodes = record {
      fresh = h.episodes.fresh;
      row_ids = h.episodes.row_ids;
      numbers = h.episodes.numbers;
      episode_ids = h.episodes.episode_ids;
    };
    jobs = record {
      fresh = h.jobs.fresh;
      job_ids = h.jobs.job_ids;
      outputs = h.jobs.outputs;
      owned = h.jobs.owned;
    };
    archives = record {
      episodes = λ k.
          count-append_le_one (is_archive_of k) t.archives a (h.archives.episodes k) (λ hit.
            rw (← eq_of_== a.episode_id k hit)
              (count_of_not_any (is_archive_of a.episode_id) t.archives first));
      archive_ids = λ k.
          count-append_le_one (has_archive_id k) t.archives a (h.archives.archive_ids k) (λ hit.
            count_of_not_any (has_archive_id k) t.archives
              (unused k (eq_of_== a.archive_id (some k) hit)));
    };
  }

pub insert_legacy_archive-Writes :
    (episode_id archive_path now : String)
    → Writes IsConsistent (insert_legacy_archive episode_id archive_path now)
unfolding insert_legacy_archive
insert_legacy_archive-Writes episode_id archive_path now = record {
  leaves = λ t h. elim (Bool-cases (any (is_archive_of episode_id) t.archives)) [
    | inl taken ↦ rw taken tt
    | inr free ↦ elim (Bool-cases (any (has_episode_id episode_id) t.episodes)) [
      | inl known ↦ rw (free, known) (new_archive-IsConsistent t h _ free (λ k e. cc))
      | inr unknown ↦ rw (free, unknown) tt
    ]
  ];
}

pub insert_verified_archive-Writes :
    (c : ArchiveCommit) (digest now : String)
    → Writes IsConsistent (insert_verified_archive c digest now)
unfolding insert_verified_archive
insert_verified_archive-Writes c digest now = record {
  leaves = λ t h. elim (Bool-cases (can_commit c t)) [
    | inl can ↦ elim (Bool-cases (any (has_archive_id c.archive_id) t.archives)) [
      | inl used ↦ rw (can, used) tt
      | inr unused ↦
          rw (can, unused)
            (new_archive-IsConsistent t h (verified_record (suc t.last_archive) c digest now)
              (unfold can_commit in ground arith) (λ k e. rw (← some-injective _ _ e) unused))
    ]
    | inr cannot ↦ rw cannot h
  ];
}
