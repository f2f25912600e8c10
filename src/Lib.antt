-- ===== src/Lib.antt =====
-- Verification of the completion server of deins-complete (api/internal, in Go).
--
-- The server takes a completion request from an editor, checks it, passes it to an AI provider, with
-- a fallback where one is configured, and cleans the text before it is shown. Around this core stand
-- tokens, a rate limiter and quotas, the accounts of users with their installations, and the
-- configuration read at start.
--
--   Completion   api/internal/completion: types.go (Types), errors.go (Errors), policy.go (Policy),
--                the texts of policy.go and fim/fim.go (Prompt), filemetadata.go (FileName),
--                validation.go (Validation), service.go (Service), router/router.go (Router), and
--                providers (Providers, with Openai and Anthropic). The service calls a Provider and a
--                sanitizer, both parameters; the router is itself a provider over a list of them. A
--                stream is the list of chunks that a provider would send and the error it would end
--                with; the callbacks pass the state of the caller.
--   Sanitizer    api/internal/completion/sanitizer/sanitizer.go, function by function.
--   RateLimit    api/internal/ratelimit/limiter.go: Allow as a function of limiter, time and name.
--   Usage        api/internal/usage: tracker.go (Daily) and monthly.go (Monthly).
--   Config       api/internal/config/config.go: parse as a function of the lookup of a name.
--   Auth         api/internal/auth/token.go (Installation) and api/internal/accountauth/tokens.go
--                (Account), with the signed text that both use (Envelope).
--   Account      api/internal/account: repository.go by its tables (Users, Codes, Sessions,
--                Installations, Plans, Admin), its methods as one type of calls (Calls), and
--                service.go (Service), which calls Auth and Usage.
--   Middleware   api/internal/http/middleware: the guards in front of the completion handler, with the
--                order of api/internal/server/router.go (Chain) and the guards of other routes
--                (Public). They call RateLimit, Usage and Auth.
--   Handlers     api/internal/http/handlers: completion.go and stream.go, over the service, and
--                installation.go (Registration).
--   Prelude      Go strings as lists of bytes, maps as functions, int, float64, results, and their lemmas.
--
-- A Go string is the list of its bytes, and len is its length. Trimming knows the UTF-8 forms of
-- Unicode's white space; lower case agrees with Go's in comparisons with ASCII texts. Times are
-- nanoseconds since the epoch. Each method that holds a mutex is one step on an explicit state. The
-- tokens of the limiter are float64, each operation rounded by itself as IEEE 754 says, not fused
-- (Prelude/Float); a result that reaches infinity is not modelled, as the accepted rates and bursts
-- keep all numbers far below. Counters of the quotas are 64-bit words. Every loop is structural
-- recursion on the list or text it runs over, or on a number that bounds it (the length of an
-- overlap), so no fuel is needed; the rounding of a float64 doubles its unit at most 4200 times,
-- more than the digits that a product or a quotient of two numbers can have.
--
-- A table of the accounts is the list of its rows. An SQL statement is what it does to them: the
-- rows that its condition holds of, the columns it sets, and the PRIMARY KEY, UNIQUE and REFERENCES
-- clauses of the migrations that can refuse it. Which statements of a call fail for another reason
-- is an input, by their number; a transaction that fails leaves the tables as they were. The time,
-- the random ids and the random tokens are inputs too, and ids are texts as PostgreSQL writes a
-- UUID.
--
-- Parameters stand for what is not in the repository: strconv.Atoi, strconv.ParseFloat, url.Parse,
-- HMAC-SHA256, SHA-256, base64 and JSON, strings.ToLower where it is applied to an address, the mailer,
-- the calendar, path and unicode, the answers that the HTTP client has for a provider, with what the
-- JSON decoder and the scanner of lines read of them, what is written to a connection, and the state of
-- a context. The account repository that the guards call is an interface of two operations.
--
-- Not modelled: the SQL reports on quality events and the transport of mail, the other HTTP handlers,
-- logging and recovery, the Redis variants, whose logic is in Lua scripts, the start-up code, and the
-- editor extension in TypeScript.
pub mod Prelude
pub mod Completion
pub mod Sanitizer
pub mod RateLimit
pub mod Usage
pub mod Config
pub mod Account
pub mod Auth
pub mod Middleware
pub mod Handlers
