-- ===== src/Lib.antt =====
-- The client of the hotel booking system (frontend/react-app/src): React components whose state
-- changes by handlers, by effects on their props, and by the answers to requests. Each component is
-- a record of its state with one function per handler. What its parent owns (the props and the
-- values that it hands to `onChange`) stands in the same record, and the parent stores what it is
-- handed. A request is split at its `await`: the part before it is one function, and the part after
-- it another, which takes the answer; where several requests may be under way, the captured part of
-- the handler waits in a list and the answers come in every order. `Event`, `step` and `run` put the
-- handlers together: a run is any list of events.
--
-- Common: Boolean tests, texts (lists of code points, with the ASCII part of `toLowerCase`,
-- `trim` and `\s`), lists and a stable sort over the native numbers.
--
-- Calendar: the part of JavaScript's `Date` that the components use, which is the language's and
-- not this repository's. Years count from 0, the time zone is a fixed offset without daylight
-- saving, and an instant is a number of minutes. `new_date` is the constructor on three numbers, which
-- reads a year below 100 as one of the twentieth century. The button for the month before stays in the
-- year 0 at its January, where the source goes on to negative years. The day of a number is found in at most as many
-- years as the number has days, and in at most 12 months, which Calendar/Days shows to be enough.
--
-- Session: contexts/AuthContext.jsx (`AuthProvider`) and the interceptors of services/api.js. The
-- browser's `JSON` and `atob` are the parameter `Codec`; the theorems that need it say that
-- parsing gives back what was written. Session/Routes: the table of App.jsx and
-- routes/PrivateRoute.jsx; which route a path selects is the router library's, so the theorems
-- speak of every route.
--
-- SignIn: pages/public/Login.jsx, pages/public/Register.jsx and pages/auth/AuthCallback.jsx, over
-- Session and, for the page that a login opens, its table of routes. A handler runs to its end, with
-- the server's answers as arguments; a refused request passes the interceptor of Session.
--
-- Phone: components/PhoneInput.jsx. The effect on `[value]` runs when the parent's text changes.
--
-- RangePicker: components/common/DateRangePicker.jsx. A date text is a calendar day or empty.
--
-- SinglePicker: components/common/SingleDatePicker.jsx.
--
-- Guests: components/common/GuestsPicker.jsx.
--
-- Wishlist: contexts/WishlistContext.jsx.
--
-- Live: contexts/SocketContext.jsx and contexts/NotificationContext.jsx. The steps of the connection
-- are a relation, and its closures are told apart by the run of the effect that made them.
--
-- Helper: components/public/AIHelper.jsx.
--
-- Profile: pages/user/ProfileManagement.jsx, without its lists of payments and reviews.
--
-- MyBookings: pages/user/MyBookings.jsx. The requests under way are a list, and an answer comes to any
-- of them.
--
-- Booking: pages/public/Booking.jsx, which uses the two pickers and the session's user. The
-- server's answers are the parameter `Server`; a confirmation runs to its end before the next
-- event, as its button is disabled meanwhile. Prices are whole numbers.
--
-- AllBookings: pages/admin/bookings/AllBookings.jsx. In AllBookings/Clicks each change that is under way
-- keeps the list of its closure.
--
-- AllGuests: pages/admin/users/AllGuests.jsx, where the requests wait as in GuestIntelligence.
--
-- BookingCalendar: pages/admin/bookings/BookingCalendar.jsx, over the same dates.
--
-- Hotels: pages/public/Hotels.jsx, its filters, its price slider and the repeated request of the
-- hotels, and in Hotels/Browse its two modes with the request of a hotel's rooms. The recursion of
-- `attempt` is on the requests that are left, three at first, which is as many as the source makes. Prices are whole numbers and ratings are tenths.
--
-- SearchBar: components/public/BookingSearchBar.jsx, whose timer of 300 ms ends at any time after the
-- key that starts it.
--
-- SearchResults: pages/public/SearchResults.jsx. The server's answer to a request is a function of
-- the request, and ratings are tenths.
--
-- ActivityLogs: pages/admin/system/ActivityLogs.jsx, with its export in ActivityLogs/Export, which
-- ActivityLogs/Reader reads back as comma-separated values.
--
-- GuestIntelligence: pages/admin/guests/GuestIntelligence.jsx. The timer that empties the panel waits
-- among the requests, so it fires before or after any answer.
--
-- Recommender: components/public/RoomRecommender.jsx. A number field holds a natural number.
--
-- Not modelled: the markup and styles, texts in the browser's locale, focus and timers, the pages
-- that only list what the server sends, and the server (backend).
pub mod Common
pub mod Session
pub mod Phone
pub mod Calendar
pub mod RangePicker
pub mod Guests
pub mod SignIn
pub mod Wishlist
pub mod Live
pub mod Booking
pub mod AllBookings
pub mod AllGuests
pub mod Hotels
pub mod Recommender
pub mod SinglePicker
pub mod BookingCalendar
pub mod ActivityLogs
pub mod GuestIntelligence
pub mod Helper
pub mod MyBookings
pub mod Profile
pub mod SearchBar
pub mod SearchResults
