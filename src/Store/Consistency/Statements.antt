-- ===== src/Store/Consistency/Statements.antt =====
-- Every statement that writes keeps the tables consistent.
use redline_os.Prelude.{
  ℕ, suc, String, Bool, false, ◌≡◌, [], ◌∷◌, ◌++◌, ◌==◌, string_eq, nat_eq, option_eq, any, ◌||◌,
  arith, Bool-cases, inl, inr, eq_of_==,
}
use redline_os.Prelude.Counting.{
  count-update, any-update, count-append, count_of_not_any, any-append, count-append_le_one, any-or,
}
use redline_os.Store.Rows.{Tables, Episode}
use redline_os.Store.Sql.Keeps.{Writes}
use redline_os.Store.Episodes.{new_episode, has_episode_id, insert_episode, update_episodes}
use redline_os.Store.Consistency.{has_episode_row_id, has_number, IsConsistent}

-- A change of an episode that leaves its ids, and so all that the schema reads.
pub record SameEpisode (a b : Episode) : Type 0 where
  pub id : a.id ≡ b.id
  pub number : a.episode_number ≡ b.episode_number
  pub episode_id : a.episode_id ≡ b.episode_id

pub update_episodes-Writes :
    (p : Episode → Bool) (f : Episode → Episode)
    → ((e : Episode) → SameEpisode (f e) e)
    → Writes IsConsistent (update_episodes p f)
unfolding update_episodes
update_episodes-Writes p f same = record {
  leaves = λ t h. record {
    episodes = record {
      fresh = λ i lt.
          rw (count-update p (has_episode_row_id i) f (λ e _. cc (same e).id))
            (h.episodes.fresh i lt);
      row_ids = λ i.
          rw (count-update p (has_episode_row_id i) f (λ e _. cc (same e).id))
            (h.episodes.row_ids i);
      numbers = λ n.
          rw (count-update p (has_number n) f (λ e _. cc (same e).number)) (h.episodes.numbers n);
      episode_ids = λ k.
          rw (count-update p (has_episode_id k) f (λ e _. cc (same e).episode_id))
            (h.episodes.episode_ids k);
    };
    jobs = record {
      fresh = h.jobs.fresh;
      job_ids = h.jobs.job_ids;
      outputs = h.jobs.outputs;
      owned = λ k owns.
          rw (any-update p (has_episode_id k) f (λ e _. cc (same e).episode_id))
            (h.jobs.owned k owns);
    };
    archives = record { episodes = h.archives.episodes; archive_ids = h.archives.archive_ids };
  };
}

module _ (number : ℕ) (episode_id project_name now : String) (t : Tables) (h : IsConsistent t) where
  abbrev added : Episode
  added = new_episode (suc t.last_episode) number episode_id project_name now

  apart :
      any (λ e. e.episode_number == number || has_episode_id episode_id e) t.episodes ≡ false
      → (any (has_number number) t.episodes ≡ false)
        × (any (has_episode_id episode_id) t.episodes ≡ false)
  apart = any-or (has_number number) (has_episode_id episode_id) t.episodes

  appended-IsConsistent :
      any (λ e. e.episode_number == number || has_episode_id episode_id e) t.episodes ≡ false
      → IsConsistent
          (record t { episodes = t.episodes ++ added ∷ []; last_episode = suc t.last_episode })
  unfolding new_episode
  appended-IsConsistent free = record {
    episodes = record {
      fresh = λ i lt.
          ground (arith, count-append (has_episode_row_id i) t.episodes added, h.episodes.fresh i);
      row_ids = λ i. ground (
        arith,
        count-append (has_episode_row_id i) t.episodes added,
        h.episodes.fresh i,
        h.episodes.row_ids i,
      );
      numbers = λ n.
          count-append_le_one (has_number n) t.episodes added (h.episodes.numbers n) (λ hit.
            rw (← eq_of_== number n hit)
              (count_of_not_any (has_number number) t.episodes (apart free).0));
      episode_ids = λ k.
          count-append_le_one (has_episode_id k) t.episodes added (h.episodes.episode_ids k) (λ hit.
            rw (← eq_of_== episode_id k hit)
              (count_of_not_any (has_episode_id episode_id) t.episodes (apart free).1));
    };
    jobs = record {
      fresh = h.jobs.fresh;
      job_ids = h.jobs.job_ids;
      outputs = h.jobs.outputs;
      owned = λ k owns. any-append (has_episode_id k) t.episodes added (h.jobs.owned k owns);
    };
    archives = record { episodes = h.archives.episodes; archive_ids = h.archives.archive_ids };
  }

pub insert_episode-Writes :
    (number : ℕ) (episode_id project_name now : String)
    → Writes IsConsistent (insert_episode number episode_id project_name now)
unfolding insert_episode
insert_episode-Writes number episode_id project_name now = record {
  leaves = λ t h.
      elim (Bool-cases
        (any (λ e. e.episode_number == number || has_episode_id episode_id e) t.episodes)) [
          | inl taken ↦ rw taken tt
          | inr free ↦ rw free (appended-IsConsistent number episode_id project_name now t h free)
        ];
}

pub SameEpisode-of :
    (a b : Episode)
    → a.id ≡ b.id
    → a.episode_number ≡ b.episode_number
    → a.episode_id ≡ b.episode_id
    → SameEpisode a b
SameEpisode-of a b i n e = record { id = i; number = n; episode_id = e }
