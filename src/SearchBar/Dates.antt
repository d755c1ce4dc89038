-- ===== src/SearchBar/Dates.antt =====
-- BookingSearchBar.jsx: from two clicked days to the dates of the search.
