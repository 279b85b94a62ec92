-- ===== src/Lib.antt =====
-- imagelet: a Go web server that answers every request with a picture or a page of text, drawn from
-- a time, a host's DNS records, a GitHub profile, a stock's quote and reports, or the server itself.
-- The model covers the parts that hold state between requests, the caches, the counters and the rate
-- limiter, what the middleware makes of a request before its handler runs, the page of a host's DNS
-- records from the request to the queries and back, the pages of GitHub, and which redirects of an
-- upstream are followed.
--
-- How the parts stand together. A request passes the limits of its size, the detectors of its time
-- zone, date, client, region and locale, which leave what they find in its context, and the page
-- cache (internal/htmlcache), whose middleware answers it from a stored page, waits for the request
-- that is rendering the same page, or renders. A handler asks a provider behind a cache of its own:
-- service/dns/resolver/cached, service/github/profile/cached and service/stock/quote/cached keep an
-- entry per key with a state and a deadline, and service/stock/twse puts internal/ttlcache in front
-- of every report of the exchange. internal/ttlcache also saves its entries to a file when the
-- server stops and loads them when it starts.
--
-- Files and what they model.
-- - Base: lists, options and numbers as the components share them. Base/Assoc is Go's map, Base/Order
--   the container/list of a cache with its keys as elements, Base/Text a string as its code points
--   with what the program uses of package strings.
-- - Recency: the map and the list that internal/ttlcache/ttlcache.go and
--   internal/htmlcache/htmlcache.go both keep. `touch` is MoveToFront, `discard` the removal of one
--   key, `put` a store, `evict` its loop. `view` reads the two as one list of entries, which is the
--   abstract cache of the refinement theorems.
-- - TtlCache: internal/ttlcache/ttlcache.go (`new`, `get`, `set`, `all`, `len`, `get_or_fetch` with
--   the closure `load`), and internal/ttlcache/snapshot.go in TtlCache/Snapshot (`save_json`,
--   `load_json`) and TtlCache/SaveFile (`save_json_file` over the directory entries of the file and
--   its temporary file, each system call able to fail).
-- - HtmlCache: internal/htmlcache/htmlcache.go. HtmlCache.antt has the store and the table of
--   renders under way, HtmlCache/Policy shouldStore and parseMaxAge, HtmlCache/Headers copyHeaders and
--   serve, HtmlCache/Key cacheKey up to its hash, and HtmlCache/Flight the middleware as a step
--   relation (`Step`) on the cache, the channels and the phase of every request.
-- - StaleCache: what service/dns/resolver/cached/cached.go and
--   service/github/profile/cached/cached.go do in the same words. `start` is the part of Lookup,
--   User or Repo before its singleflight call, `finish` the part after it, each without an
--   interruption, `call` both; a `Policy` has what differs. Entries are pointers, and an old entry
--   is written through a pointer that was read before the upstream was asked, so there is a heap.
--   StaleCache/Interleavings has the reachable states of any number of calls under way, where every
--   read of an entry outside of the mutex is a step of its own (`Stage`); a read sees a whole value.
--   StaleCache/Later has sequences of calls, StaleCache/Ownership the pointers that calls hold,
--   StaleCache/Refinement the cache as a map to values. DnsCache and GithubCache are the two
--   programs as policies.
-- - QuoteCache: service/stock/quote/cached/cached.go (`start`, `finish`, `get`, `get_at`), without
--   interruptions; QuoteCache/Later has sequences of calls.
-- - Twse: service/stock/twse/cached_walkback.go. Twse/Calendar has ttlForAsOf, clampAsOfTWAt and the
--   days, Twse/WalkBack walkBackTradingDays, Twse/Daily the caches keyed by day, Twse/Futures
--   CachedRetailFutures, Twse/Dumps the caches of one dump, Twse/Holders CachedHolders.
-- - IpLimit: middleware/iplimit/iplimit.go (`allow`, `client_ip`, `middleware`).
-- - Dns: service/dns and service/dns/resolver. Dns/Queries has the query helpers of
--   resolver/lookup.go, with `exchange`, Dns/Lookup its `Lookup` (`lookup_records`): every goroutine
--   is a list of critical sections on what `mu` guards (`Board`), and a `Schedule` is the order in
--   which the sections are entered and the goroutines return. Dns/Names is resolver/client.go,
--   Dns/Addresses isPublicAddr. Dns/Hosts, Dns/Captions and Dns/Page are service/dns/dns.go:
--   validateAndCanonicalize, with hostRe as an automaton, the rows of the card, and the handler.
--   Dns/Pages puts the handler before DnsCache and behind HtmlCache.
-- - Github: service/github. Github/Names has loginRe, as an automaton, and repoRe, Github/Cards the
--   rows of the cards and the records of service/github/profile, Github/Page the two handlers.
--   Github/Upstream is service/github/profile: `do_get` its request, `fetch_user` and `fetch_repo`
--   the providers. Github/Private puts handler, cache and provider together. Github/Repositories
--   puts a handler before GithubCache, Github/Pages before HtmlCache and behind IpLimit, in the
--   order of cmd/imagelet/main.go.
-- - Qr: service/qr/qr.go (`serve_qr`), with ParseQRLevel of render/qr.go.
-- - Render: the Mode of render/box.go; Render/Sanitize: render/sanitize.go.
-- - Middleware: middleware/reqcounter/reqcounter.go in Middleware/Counter; middleware/client.go,
--   middleware/region.go and internal/i18n/i18n.go in Middleware/Clients; middleware/timezone.go in
--   Middleware/Zones, with the memo of loaded locations as an argument and a result;
--   middleware/date.go in Middleware/Dates; middleware/url.go and middleware/sizelimit.go in
--   Middleware/Urls. A gin context is a record (`Context`) of the values that the detectors set.
--   Middleware/Chain is the order in which server/server.go (`New`) puts them.
-- - SafeHttp: internal/safehttp/safehttp.go (`redirect_policy`).
-- Modules named Tests run the definitions on small inputs and apply each theorem once.
--
-- Conventions. Clock readings, answers of the upstream and answers of singleflight are arguments, one
-- for each time the code asks. A time is a number of nanoseconds since the zero time.Time, so that
-- 0 is the zero time, and the end of its range is not modelled; counters and the max-age product keep
-- their wrap-around. Errors are data types with one constructor per sentinel that the code tests for.
--
-- Bounds and fuel. `Recency.evict` runs on fuel: the length of the list, which drops by one in
-- each round, so that the list is within the limit before the fuel is used up. `Dns.Captions.decimal`
-- has fuel for n + 1 digits, of which a number n has fewer. `walk_from` counts the
-- days of maxLookbackDays down, and every other loop is recursion on a list.
--
-- What is not modelled. The upstream calls and the parsers of the exchange and the quotes, JSON
-- text, the hash of the cache key, gin's routing, the renderers and the fonts, the catalogs of
-- texts, the flags and signals of the command, and the logs. The DNS library, the limiter of
-- golang.org/x/time, ToASCII, netip's text forms, net/url, the time zones and their dates, the
-- parsing and looking up of addresses in package net, the list of public suffixes, and for GitHub the
-- sending of requests, the decoding of JSON and the reading of instants are parameters. Unicode case
-- mapping is modelled as far as its results are ASCII.
pub mod Base
pub mod Recency
pub mod TtlCache
pub mod HtmlCache
pub mod StaleCache
pub mod DnsCache
pub mod GithubCache
pub mod QuoteCache
pub mod Twse
pub mod IpLimit
pub mod Dns
pub mod Render
pub mod Middleware
pub mod SafeHttp
pub mod Github
pub mod Qr
