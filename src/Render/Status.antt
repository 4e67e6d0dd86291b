-- ===== src/Render/Status.antt =====
-- The texts of `RenderJobStatus`, which Resolve's adapter reports, and `_KNOWN_STATUSES`.
pub mod Texts
use redline_os.Prelude.{
  String, Bool, true, ◌≡◌, refl, Option, none, some, ◌==◌, string_eq, if◌then◌else◌,
}
use redline_os.Store.Rows.{
  RenderJobStatus, claiming, queued, rendering, complete, failed, cancelled,
}

unfoldable pub value : RenderJobStatus → String
value claiming = "claiming"
value queued = "queued"
value rendering = "rendering"
value complete = "complete"
value failed = "failed"
value cancelled = "cancelled"

-- `RenderJobStatus(text)`, or none where the text is not in `_KNOWN_STATUSES`.
unfoldable pub status_of : String → Option RenderJobStatus
status_of text =
    if text == "claiming"
    then some claiming
    else if text == "queued"
    then some queued
    else if text == "rendering"
    then some rendering
    else if text == "complete"
    then some complete
    else if text == "failed"
    then some failed
    else if text == "cancelled"
    then some cancelled
    else none
