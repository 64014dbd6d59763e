-- ===== src/Lib.antt =====
-- minidp: models of the OpenID Connect provider in internal/idp and of its clientctl
-- command, and theorems about them.
--
-- The program is a small OAuth2 and OpenID Connect server. It loads a file of registered clients
-- with their accounts, answers authorization requests with single-use codes, and exchanges codes,
-- refresh tokens and client credentials for signed tokens. Codes, refresh tokens, the ids of access tokens and
-- revocations live in memory.
--
-- Files and the code that they model:
--   Strings            the functions of Go's strings package that the code uses, on native strings
--   Errors             internal/idp/errors.go and cmd/clientctl/errors.go: the sentinel errors as a data
--                      type, without wrapping text
--   Clients            internal/idp/clients.go and users.go: the clients, their validation
--                      (Clients/Users, Clients/Validate), the role registry of the file (Clients/Resources), the
--                      in-memory registry and its lookups (Clients/Registry), reading and writing the file (Clients/Files),
--                      password hashes (Clients/Hashes)
--   Store              internal/idp/store.go: each method as a function on the store; a method that
--                      reads the clock or draws randomness takes the readings as arguments;
--                      Store/History has sequences of calls, each under the lock
--   Limiter            internal/idp/ratelimit.go: the token bucket per client address
--   Tokens             internal/idp/tokens.go: the claims of tokens, and parseScopes of server.go
--   Keys               internal/idp/key.go: the key set in memory, signing, the key function; keys as files and
--                      the loop that creates one (Keys/Material), the key ring (Keys/Ring), its
--                      rotation (Keys/Rotate)
--   Config             internal/idp/config.go: the settings from the environment
--   Discovery          internal/idp/discovery.go: the discovery document, the published keys of key.go and the
--                      CORS grant of server.go
--   Page               internal/idp/web.go: the assets of the login page, its data and its rendering
--   Start              internal/idp/server.go and main.go: the start of the server (Start/Ready) and the command
--                      minidp with its rotation of keys (Start/Rotation)
--   Routes             internal/idp/server.go: the routes (Routes/Advertised, Routes/Effects), runs of requests
--                      (Routes/Codes, Routes/Denied), the readiness probe (Routes/Reached), the headers of every response
--                      (Routes/Guards)
--   Server             internal/idp/server.go: the configured server; Server/Exec has the monad that handlers
--                      run in, with the replies that they write
--                      Server/ClientIp has the client's address
--   Csrf               internal/idp/csrf.go: the tokens of the login form
--   Handlers           internal/idp/handlers.go: client authentication (Handlers/ClientAuth), PKCE
--                      (Handlers/Pkce), the authorization endpoint and the login (Handlers/Authorize), which
--                      tokens are accepted (Handlers/Accept), userinfo, introspection, revocation and
--                      logout (Handlers/Resources), issuance (Handlers/Issue, with issueTokens of tokens.go), the token
--                      endpoint (Handlers/TokenEndpoint); Handlers/Holding has what all of them keep
--   JsonFile           internal/idp/jsonfile.go: a file is read, and replaced by way of a temporary file
--   Ctl                cmd/clientctl: the console (Ctl/Console), the changes of an entry and of an
--                      account (Ctl/Changes, Ctl/Accounts), the commands (Ctl/Commands), the listings and
--                      the dispatch (Ctl/Show)
--   Durations          the signed durations of Config, and what Go's time package does with them
--   Base               shared names, tests on numbers, lists of texts and maps
--   Examples           sample data and runs
--
-- A handler is a function from the world (the store, the limiter, how often the clock and the source
-- of randomness were read) to a reply and a new world; it calls the store's functions where the
-- source calls its methods, and stops with a reply where the source writes an error and returns. One
-- handler runs to its end before the next starts; the interleavings of store calls, which the source's lock allows, are
-- the histories of Store/History.
--
-- A clientctl command computes the entries to save from the values of its flags, the console and the
-- files, and then saves them; what each call of the operating system reports is the record `Io`.
--
-- Libraries outside the repository are fields of `Platform` in Server (the clock, crypto/rand, HMAC, net's
-- addresses, net/url, SHA-256, bcrypt, the JWT library), of `Json` in Clients/Files, of `KeyLibrary` in
-- Keys/Material (crypto/rsa, x509, pem), of `Console` in Ctl/Console, of `FlagPackage` in Ctl/Flags and
-- of `Environment` in Config. The files of a directory are a map from paths to contents, and `Io` in JsonFile
-- tells what each call of the operating system reports.
--
-- A loop is recursion on a list or a string; the loop of persistentSigningKey has fuel for three
-- rounds, which is proved to be enough. Instants count nanoseconds from Go's zero time, and the clock reads more
-- than the 292 years that a time.Duration spans. Durations that come from the environment are signed: a
-- duration is the 64-bit word that represents it, and a negative one shifts an instant back; its whole seconds are
-- exact, where the source goes through a float64. Other numbers do not wrap around. The numeric
-- dates of claims count seconds from that zero, which shifts all of them alike. A bucket of the limiter
-- counts exact fractions of a token, where the source has a float64.
--
-- Not modelled: the text of the HTML template, the cleaning of paths in net/http, the headers that single handlers
-- set, listening, signals and the shutdown in main.go, log lines and error texts, the lines that clientctl prints
-- after a change, the RSA and bcrypt primitives.
pub mod Base
pub mod Durations
pub mod Strings
pub mod Errors
pub mod Clients
pub mod Limiter
pub mod Store
pub mod Tokens
pub mod Keys
pub mod Page
pub mod Start
pub mod Routes
pub mod JsonFile
pub mod Ctl
pub mod Config
pub mod Csrf
pub mod Server
pub mod Handlers
pub mod Discovery
pub mod Examples
