-- ===== src/Session/Routes.antt =====
-- frontend/react-app/src/App.jsx and routes/PrivateRoute.jsx: the table of routes, and who sees
-- what. Which route a path selects is the router library's; the theorems speak of every route of
-- the table.
pub mod Guards
use Prim.Native.String.{String}
use hotel_ms.Common.{
  ◌≡◌, refl, if◌then◌else◌, Bool, true, false, not, List, [], ◌∷◌, Option, none, some, Text, codes,
  includes,
}
use hotel_ms.Session.{Json, null, text, number, Session, role, is_authenticated}

-- The element of a route: a page, a page behind PrivateRoute with its roles, or a redirection.
pub data Element : Type 0 where
  page : Text → Element
  private : List Text → Text → Element
  redirect : Text → Element

pub record Route : Type 0 where
  pub path : Text
  pub element : Element

-- What the browser shows.
pub data Screen : Type 0 where
  spinner : Screen
  goes : Text → Screen
  shows : Text → Screen

-- `roles.includes(role)`
unfoldable pub allows : List Text → Json → Bool
allows roles null = false
allows roles (number n) = false
allows roles (text r) = includes r roles

unfoldable pub private_route : Option (List Text) → Text → Session → Screen
private_route roles children s =
    if s.is_loading
    then spinner
    else if not (is_authenticated s)
    then goes (codes "/login")
    else elim roles [
      | none ↦ shows children
      | some rs ↦ if not (allows rs (role s)) then goes (codes "/") else shows children
    ]

unfoldable pub render : Element → Session → Screen
unfolding private_route
render (page name) s = shows name
render (private roles name) s = private_route (some roles) name s
render (redirect path) s = goes path

abbrev pub admins : List Text
admins = codes "hotel_admin" ∷ codes "super_admin" ∷ []

abbrev pub team : List Text
team = codes "staff" ∷ admins

abbrev pub everyone : List Text
everyone = codes "guest" ∷ team

abbrev route : String → Element → Route
route p e = record { path = codes p; element = e }

unfoldable pub routes : List Route
routes =
    route "/" (page (codes "Home"))
    ∷ route "/login" (page (codes "Login"))
    ∷ route "/register" (page (codes "Register"))
    ∷ route "/about" (page (codes "About"))
    ∷ route "/contact" (page (codes "Contact"))
    ∷ route "/rooms" (redirect (codes "/hotels"))
    ∷ route "/hotels" (page (codes "Hotels"))
    ∷ route "/booking" (page (codes "Booking"))
    ∷ route "/search" (page (codes "SearchResults"))
    ∷ route "/faq" (page (codes "FAQ"))
    ∷ route "/room-details/:id" (page (codes "RoomDetails"))
    ∷ route "/forgot-password" (page (codes "ForgotPassword"))
    ∷ route "/booking-confirmation" (page (codes "BookingConfirmation"))
    ∷ route "/auth/callback" (page (codes "AuthCallback"))
    ∷ route "/dashboard" (private everyone (codes "UserDashboard"))
    ∷ route "/user/dashboard" (redirect (codes "/dashboard"))
    ∷ route "/my-bookings" (private everyone (codes "MyBookings"))
    ∷ route "/my-bookings/:id" (private everyone (codes "BookingDetails"))
    ∷ route "/profile" (private everyone (codes "ProfileManagement"))
    ∷ route "/payments" (private everyone (codes "PaymentHistory"))
    ∷ route "/reviews" (private everyone (codes "Reviews"))
    ∷ route "/notifications" (private everyone (codes "Notifications"))
    ∷ route "/settings" (private everyone (codes "UserSettings"))
    ∷ route "/saved" (private everyone (codes "SavedRooms"))
    ∷ route "/admin" (redirect (codes "/admin/dashboard"))
    ∷ route "/admin/dashboard" (private admins (codes "AdminDashboard"))
    ∷ route "/admin/bookings" (private admins (codes "AllBookings"))
    ∷ route "/admin/checkinout" (private admins (codes "AdminCheckInOut"))
    ∷ route "/admin/rooms" (private admins (codes "RoomsList"))
    ∷ route "/admin/room-types" (private admins (codes "RoomTypes"))
    ∷ route "/admin/rooms/add" (private admins (codes "AddRoom"))
    ∷ route "/admin/pricing" (private admins (codes "DynamicPricing"))
    ∷ route "/admin/blackout-dates" (private admins (codes "BlackoutDates"))
    ∷ route "/admin/reports/occupancy" (private admins (codes "OccupancyReport"))
    ∷ route "/admin/reports/revenue" (private admins (codes "RevenueReport"))
    ∷ route "/admin/reports/guests" (private admins (codes "GuestAnalytics"))
    ∷ route "/admin/guests" (private admins (codes "AllGuests"))
    ∷ route "/admin/guest-intelligence" (private admins (codes "GuestIntelligence"))
    ∷ route "/admin/staff" (private admins (codes "StaffAccounts"))
    ∷ route "/admin/users/add" (private admins (codes "AddUser"))
    ∷ route "/admin/activity-logs" (private admins (codes "ActivityLogs"))
    ∷ route "/admin/system/health" (private admins (codes "SystemHealth"))
    ∷ route "/admin/settings" (private admins (codes "Settings"))
    ∷ route "/admin/profile" (private admins (codes "AdminProfile"))
    ∷ route "/admin/overview/today" (private admins (codes "TodaySummary"))
    ∷ route "/admin/bookings/calendar" (private admins (codes "BookingCalendar"))
    ∷ route "/admin/bookings/pending" (private admins (codes "PendingApprovals"))
    ∷ route "/staff/bookings" (private team (codes "AssignedBookings"))
    ∷ route "/staff/checkinout" (private team (codes "StaffCheckInOut"))
    ∷ route "/staff/rooms" (private team (codes "RoomStatusBoard"))
    ∷ route "/staff/tasks" (private team (codes "TaskManagement"))
    ∷ route "/staff/daily-summary" (private team (codes "DailySummary"))
    ∷ route "/staff/guest-requests" (private team (codes "GuestRequests"))
    ∷ route "/staff/profile" (private team (codes "StaffProfile"))
    ∷ route "/staff/settings" (private team (codes "StaffSettings"))
    ∷ route "*" (redirect (codes "/"))
    ∷ []
