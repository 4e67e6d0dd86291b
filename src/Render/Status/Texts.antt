-- ===== src/Render/Status/Texts.antt =====
-- The texts of the statuses are told apart.
use redline_os.Prelude.{String, ◌≡◌, refl, some, string_eq, arith}
use redline_os.Store.Rows.{
  RenderJobStatus, claiming, queued, rendering, complete, failed, cancelled,
}
use redline_os.Render.Status.{value, status_of}

pub status_of-value : (s : RenderJobStatus) → status_of (value s) ≡ some s
unfolding status_of value string_eq
status_of-value claiming = refl
status_of-value queued = refl
status_of-value rendering = refl
status_of-value complete = refl
status_of-value failed = refl
status_of-value cancelled = refl

pub value_of_status_of :
    (text : String) (s : RenderJobStatus) → status_of text ≡ some s → value s ≡ text
unfolding status_of value
value_of_status_of text s h = ground arith
