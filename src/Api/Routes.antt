-- ===== src/Api/Routes.antt =====
-- src/honeywatch/api/routes: the routes, after the check of the credentials. A route has the rows of
-- the table, the instant of the request and its parameters; what fails to match their patterns or
-- bounds is refused with 422.
pub mod Attacks
pub mod Dashboard
pub mod Analysis
pub mod Geo
pub mod Health
