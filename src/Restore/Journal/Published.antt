-- ===== src/Restore/Journal/Published.antt =====
-- What `record` publishes where no call of the operating system fails.
use redline_os.Prelude.{
  ℕ, suc, ◌<◌, String, ◌<>◌, true, false, ◌≡◌, ◌≢◌, refl, ap, sym, ◌∙◌, none, some, List, [], ◌∷◌,
  ◌++◌, string_eq, arith, ltb,
}
use mathlib.Core.List.{append_assoc}
use redline_os.Prelude.Dict.{get}
use redline_os.Prelude.Dict.Laws.{get-cons, get-cons_other, put-append, pop-append, get-append}
use redline_os.Errors.{error_eq}
use redline_os.Exec.{ok}
use redline_os.Restore.Journal.States.{value}
use redline_os.Restore.Journal.Directory.{Node, file, directory, Folder, write, rename}
use redline_os.Restore.Journal.Names.{leading}
use redline_os.Restore.Journal.Assumed.{IsRuntime}
use redline_os.Restore.Journal.Payload.{Runtime}
use redline_os.Restore.Journal.Fresh.{
  Below, is_below, absent, is_below-name, is_below-sidecar, is_below-dot, tmps_differ,
  sidecar_differs,
}
use redline_os.Restore.Journal.{
  RestoreJournal, Event, name_of, body_of, sidecar_name, json_tmp, sidecar_tmp, publish_file,
  publish, clean_up, append,
}

-- A directory with these entries, where every call works.
abbrev pub holding : List (String × Node) → Folder
holding nodes = record { place = directory; nodes = nodes; calls = [] }

abbrev pub pair : String → String → String → List (String × Node)
pair name body digest = (name, file body) ∷ (sidecar_name name, file digest) ∷ []

write_works :
    (name content : String) (nodes : List (String × Node))
    → get name nodes ≡ none
    → write name content (holding nodes) ≡ (ok tt, holding (nodes ++ (name, file content) ∷ []))
unfolding write
write_works name content nodes free = rw (free, put-append name (file content) nodes free) refl

publish_file_works :
    (tmp name content : String) (xs ys : List (String × Node))
    → get tmp xs ≡ none
    → get name (xs ++ (tmp, file content) ∷ ys) ≡ none
    → get name (xs ++ ys) ≡ none
    → publish_file tmp name (holding (xs ++ (tmp, file content) ∷ ys))
      ≡ (ok tt, holding ((xs ++ ys) ++ (name, file content) ∷ []))
unfolding publish_file rename error_eq
publish_file_works tmp name content xs ys new free left =
    let here : get tmp (xs ++ (tmp, file content) ∷ ys) ≡ some (file content) =
      get-append tmp xs ((tmp, file content) ∷ ys) new ∙ get-cons tmp (file content) ys in
    rw
      (
        here,
        free,
        pop-append tmp (file content) xs ys new,
        put-append name (file content) (xs ++ ys) left,
      )
      refl

clean_up_nothing :
    (tmp : String) (nodes : List (String × Node))
    → get tmp nodes ≡ none
    → clean_up tmp (holding nodes) ≡ holding nodes
unfolding clean_up
clean_up_nothing tmp nodes free = ground arith

-- The names of one call, each free in `nodes`, and apart.
record IsFree (json sidecar name : String) (nodes : List (String × Node)) : Type 0 where
  json_free : get json nodes ≡ none
  sidecar_free : get sidecar nodes ≡ none
  name_free : get name nodes ≡ none
  digest_free : get (sidecar_name name) nodes ≡ none
  tmps : json ≢ sidecar
  json_name : json ≢ name
  sidecar-name : sidecar ≢ name
  json_digest : json ≢ sidecar_name name
  sidecar_digest : sidecar ≢ sidecar_name name

module _ (json sidecar name body digest : String) (nodes : List (String × Node))
    (f : IsFree json sidecar name nodes) where
  get_past :
      (k k' : String) (n : Node)
      → get k nodes ≡ none
      → k' ≢ k
      → get k (nodes ++ (k', n) ∷ []) ≡ none
  unfolding get
  get_past k k' n free differ =
      get-append k nodes ((k', n) ∷ []) free ∙ get-cons_other k k' n [] differ

  get_past_two :
      (k a b : String) (x y : Node)
      → get k nodes ≡ none
      → a ≢ k
      → b ≢ k
      → get k (nodes ++ (a, x) ∷ (b, y) ∷ []) ≡ none
  unfolding get
  get_past_two k a b x y free first second =
      get-append k nodes ((a, x) ∷ (b, y) ∷ []) free
      ∙ get-cons_other k a x ((b, y) ∷ []) first
      ∙ get-cons_other k b y [] second

  abbrev written : List (String × Node)
  written = nodes ++ (json, file body) ∷ (sidecar, file digest) ∷ []

  abbrev half : List (String × Node)
  half = nodes ++ (sidecar, file digest) ∷ (name, file body) ∷ []

  second_works :
      write sidecar digest (holding (nodes ++ (json, file body) ∷ [])) ≡ (ok tt, holding written)
  second_works =
      write_works sidecar digest (nodes ++ (json, file body) ∷ [])
        (get_past sidecar json (file body) f.sidecar_free f.tmps)
      ∙ ap (λ all. (ok tt, holding all))
          (append_assoc nodes ((json, file body) ∷ []) ((sidecar, file digest) ∷ []))

  third_works : publish_file json name (holding written) ≡ (ok tt, holding half)
  third_works =
      publish_file_works json name body nodes ((sidecar, file digest) ∷ []) f.json_free
        (get_past_two name json sidecar (file body) (file digest) f.name_free f.json_name
          f.sidecar-name)
        (get_past name sidecar (file digest) f.name_free f.sidecar-name)
      ∙ ap (λ all. (ok tt, holding all))
          (append_assoc nodes ((sidecar, file digest) ∷ []) ((name, file body) ∷ []))

  fourth_works :
      publish_file sidecar (sidecar_name name) (holding half)
      ≡ (ok tt, holding (nodes ++ pair name body digest))
  fourth_works =
      publish_file_works sidecar (sidecar_name name) digest nodes ((name, file body) ∷ [])
        f.sidecar_free
        (get_past_two (sidecar_name name) sidecar name (file digest) (file body) f.digest_free
          f.sidecar_digest (λ same. sidecar_differs name (sym same)))
        (get_past (sidecar_name name) name (file body) f.digest_free
          (λ same. sidecar_differs name (sym same)))
      ∙ ap (λ all. (ok tt, holding all))
          (append_assoc nodes ((name, file body) ∷ []) ((sidecar_name name, file digest) ∷ []))

  publish_works :
      publish json sidecar name body digest (holding nodes)
      ≡ (ok tt, holding (nodes ++ pair name body digest))
  unfolding publish
  publish_works =
      rw (write_works json body nodes f.json_free, second_works, third_works, fourth_works) refl

  cleaned_works :
      clean_up sidecar (clean_up json (holding (nodes ++ pair name body digest)))
      ≡ holding (nodes ++ pair name body digest)
  cleaned_works =
      let all = nodes ++ pair name body digest in
      let gone =
        get_past_two json name (sidecar_name name) (file body) (file digest) f.json_free
          (λ same. f.json_name (sym same)) (λ same. f.json_digest (sym same)) in
      let gone' =
        get_past_two sidecar name (sidecar_name name) (file body) (file digest) f.sidecar_free
          (λ same. f.sidecar-name (sym same)) (λ same. f.sidecar_digest (sym same)) in
      ap (clean_up sidecar) (clean_up_nothing json all gone) ∙ clean_up_nothing sidecar all gone'

module _ (R : Runtime) (h : IsRuntime R) where
  -- The two entries of one call.
  abbrev pub entries : RestoreJournal → Event → List (String × Node)
  entries journal event =
      let body = body_of R journal event in pair (name_of R journal event) body (R.sha256_hex body)

  apart :
      (n : ℕ) (a b : String)
      → is_below n (leading R.digit_value a) ≡ false
      → is_below n (leading R.digit_value b) ≡ true
      → a ≢ b
  apart n a b other below same = cc

  name_of-IsFree :
      (journal : RestoreJournal) (event : Event) (nodes : List (String × Node))
      → journal.next_sequence < 10000
      → Below R.digit_value journal.next_sequence nodes
      → IsFree (json_tmp event) (sidecar_tmp event) (name_of R journal event) nodes
  name_of-IsFree journal event nodes small below =
      let n = journal.next_sequence in
      let state = value event.state in
      let name = name_of R journal event in
      let bound : ltb n (suc n) ≡ true = ground arith in
      let dot = λ (k : ℕ) (s : String). is_below-dot R.digit_value h.digits k s h.dot in
      let json = event.json_hex <> ".json.tmp" in
      let sidecar = event.sidecar_hex <> ".sha256.tmp" in
      let name_below = λ (k : ℕ). is_below-name R.digit_value h.digits k n state small in
      let digest_below = λ (k : ℕ). is_below-sidecar R.digit_value h.digits k n state small in
      let outside : ltb n n ≡ false = ground arith in
      record {
        json_free = absent R.digit_value n (json_tmp event) nodes (dot n json) below;
        sidecar_free = absent R.digit_value n (sidecar_tmp event) nodes (dot n sidecar) below;
        name_free = absent R.digit_value n name nodes (name_below n ∙ outside) below;
        digest_free =
            absent R.digit_value n (sidecar_name name) nodes (digest_below n ∙ outside) below;
        tmps = tmps_differ event;
        json_name =
            apart (suc n) (json_tmp event) name (dot (suc n) json) (name_below (suc n) ∙ bound);
        sidecar-name =
            apart (suc n) (sidecar_tmp event) name (dot (suc n) sidecar)
              (name_below (suc n) ∙ bound);
        json_digest =
            apart (suc n) (json_tmp event) (sidecar_name name) (dot (suc n) json)
              (digest_below (suc n) ∙ bound);
        sidecar_digest =
            apart (suc n) (sidecar_tmp event) (sidecar_name name) (dot (suc n) sidecar)
              (digest_below (suc n) ∙ bound);
      }

  pub append_works :
      (journal : RestoreJournal) (event : Event) (nodes : List (String × Node))
      → journal.next_sequence < 10000
      → Below R.digit_value journal.next_sequence nodes
      → append R event (record { journal = journal; folder = holding nodes }) ≡ (
        ok (name_of R journal event),
        record {
          journal = record journal { next_sequence = suc journal.next_sequence };
          folder = holding (nodes ++ entries journal event);
        },
      )
  unfolding append
  append_works journal event nodes small below =
      let f = name_of-IsFree journal event nodes small below in
      let name = name_of R journal event in
      let body = body_of R journal event in
      let digest = R.sha256_hex body in
      let published = publish_works (json_tmp event) (sidecar_tmp event) name body digest nodes f in
      let cleaned = cleaned_works (json_tmp event) (sidecar_tmp event) name body digest nodes f in
      rw (f.name_free, f.digest_free, published, cleaned) refl
