-- ===== src/Profile.antt =====
-- frontend/react-app/src/pages/user/ProfileManagement.jsx: the profile, its form, the password and the
-- photo, with a short message that a timer of four seconds clears. The handlers are split at their
-- requests, whose answers may come at any time.
pub mod Messages
pub mod Score
mod Tests
use hotel_ms.Common.{
  ℕ, zero, suc, ◌+◌, ◌-◌, min, ltb, if◌then◌else◌, Bool, true, false, not, List, [], ◌∷◌, Option,
  none, some, Text, codes, truthy, trim, same,
}

-- A text that is missing is empty.
pub record Person : Type 0 where
  pub full_name : Text
  pub email : Text
  pub phone : Text
  pub photo_url : Text

pub record EditForm : Type 0 where
  pub full_name : Text
  pub email : Text
  pub phone : Text

pub record PwForm : Type 0 where
  pub current_password : Text
  pub new_password : Text
  pub confirm_password : Text

pub data Section : Type 0 where
  profile security notifications payments payment_history my_reviews : Section

pub record Page : Type 0 where
  pub section : Section
  pub editing : Bool
  pub person : Person
  pub edit_form : EditForm
  pub pw_form : PwForm
  pub loading : Bool
  pub saving : Bool
  pub changing_pw : Bool
  pub uploading_photo : Bool
  pub msg : Text
  pub err : Text
  -- how many timers of `flash` are armed
  pub timers : ℕ

unfoldable pub completion_score : Person → ℕ
completion_score p =
    min
      (25
        + (if truthy (trim p.full_name) then 30 else 0)
        + (if truthy (trim p.phone) then 25 else 0)
        + (if truthy (trim p.photo_url) then 20 else 0))
      100

unfoldable pub flash : Text → Bool → Page → Page
flash message is_err s =
    if is_err
    then record s { err = message; msg = []; timers = s.timers + 1 }
    else record s { msg = message; err = []; timers = s.timers + 1 }

unfoldable pub timer_ends : Page → Page
timer_ends s = elim s.timers [ zero ↦ s | suc n ↦ record s { msg = []; err = []; timers = n } ]

abbrev pub form_of : Person → EditForm
form_of p = record { full_name = p.full_name; email = p.email; phone = p.phone }

-- The effect that loads the profile. `none` stands for a failure.
unfoldable pub loaded : Option Person → Page → Page
loaded none s = record s { loading = false }
loaded (some p) s = record s { person = p; edit_form = form_of p; loading = false }

-- The detail of a failed response, or the text of its own.
abbrev pub detail_or : Text → Text → Text
detail_or detail own = if truthy detail then detail else own

pub data Answer {ℓ} (A : Type ℓ) : Type ℓ where
  done : A → Answer A
  fails : Text → Answer A

unfoldable pub handle_photo_change : ℕ → Page → Page
unfolding flash
handle_photo_change size s =
    if ltb 5242880 size
    then flash (codes "Image must be under 5 MB.") true s
    else record s { uploading_photo = true }

-- What follows the upload and the reading of the profile behind it, which does not fail.
unfoldable pub photo_uploaded : Answer Text → Page → Page
unfolding flash
photo_uploaded (done url) s =
    record (flash (codes "Profile photo updated.") false
      (record s { person = record s.person { photo_url = url } })) { uploading_photo = false }
photo_uploaded (fails d) s = record (flash (detail_or d (codes "Failed to upload photo.")) true s) {
  uploading_photo = false;
}

unfoldable pub handle_remove_photo : Page → Page
handle_remove_photo s = record s { uploading_photo = true }

unfoldable pub photo_removed : Answer Text → Page → Page
unfolding flash
photo_removed (done t) s =
    record (flash (codes "Photo removed.") false
      (record s { person = record s.person { photo_url = [] } })) { uploading_photo = false }
photo_removed (fails d) s = record (flash (detail_or d (codes "Failed to remove photo.")) true s) {
  uploading_photo = false;
}

unfoldable pub save_profile : Page → Page
save_profile s = record s { saving = true }

unfoldable pub profile_saved : Answer Person → Page → Page
unfolding flash
profile_saved (done p) s =
    record (flash (codes "Profile updated.") false
      (record s { person = p; edit_form = form_of p; editing = false })) { saving = false }
profile_saved (fails d) s =
    record (flash (detail_or d (codes "Failed to update profile.")) true s) { saving = false }

unfoldable pub save_pw : Page → Page
unfolding flash
save_pw s =
    if not (same s.pw_form.new_password s.pw_form.confirm_password)
    then flash (codes "Passwords do not match.") true s
    else record s { changing_pw = true }

abbrev pub empty_pw : PwForm
empty_pw = record { current_password = []; new_password = []; confirm_password = [] }

unfoldable pub pw_changed : Answer Text → Page → Page
unfolding flash
pw_changed (done t) s =
    record (flash (codes "Password changed successfully.") false
      (record s { pw_form = empty_pw })) { changing_pw = false }
pw_changed (fails d) s = record (flash (detail_or d (codes "Failed to change password.")) true s) {
  changing_pw = false;
}

-- A click on a section shows an empty message.
unfoldable pub choose_section : Section → Page → Page
unfolding flash
choose_section k s = flash [] false (record s { section = k; editing = false })

unfoldable pub cancel_edit : Page → Page
cancel_edit s = record s { editing = false; edit_form = form_of s.person }

pub data Event : Type 0 where
  loads : Option Person → Event
  photo_chosen : ℕ → Event
  upload_ends removal_ends pw_ends : Answer Text → Event
  save_ends : Answer Person → Event
  remove_clicked edit_clicked cancel_clicked save_clicked pw_clicked preferences_clicked timer :
      Event
  section_clicked : Section → Event
  form_typed : EditForm → Event
  pw_typed : PwForm → Event

unfoldable pub step : Event → Page → Page
unfolding loaded handle_photo_change photo_uploaded photo_removed pw_changed profile_saved
    handle_remove_photo cancel_edit save_profile save_pw flash timer_ends choose_section
step (loads p) s = loaded p s
step (photo_chosen size) s = handle_photo_change size s
step (upload_ends a) s = photo_uploaded a s
step (removal_ends a) s = photo_removed a s
step (pw_ends a) s = pw_changed a s
step (save_ends a) s = profile_saved a s
step remove_clicked s = handle_remove_photo s
step edit_clicked s = record s { section = profile; editing = true }
step cancel_clicked s = cancel_edit s
step save_clicked s = if s.saving then s else save_profile s
step pw_clicked s = if s.changing_pw then s else save_pw s
step preferences_clicked s = flash (codes "Preferences saved.") false s
step timer s = timer_ends s
step (section_clicked k) s = choose_section k s
step (form_typed f) s = record s { edit_form = f }
step (pw_typed f) s = record s { pw_form = f }

abbrev pub run : List Event → Page → Page
run [] s = s
run (e ∷ es) s = run es (step e s)
