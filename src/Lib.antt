-- ===== src/Lib.antt =====
-- wget2: a model of the core of libwget and of the program built on it, with its correctness
-- theorems. Paths are from the repository's root.
--
-- Conventions. A `char *` is the list of its bytes up to the NUL, a pointer into it a suffix of
-- that list, and `p[i]` is `at p i`. A buffer with a length is the list of its bytes. Machine
-- words keep their wrap-around written out where the code can reach it.
--
-- Prelude: the library's names, Boolean tests, lists with native indices, C strings and the
--   interface `Ctype` to gnulib's c-ctype.h, which is not part of the repository.
-- Base64: libwget/base64.c. `encode` and `decode` are the loops of `wget_base64_encode` and
--   `wget_base64_decode` over groups, `is_string` is `wget_base64_is_string`.
-- Iri: libwget/iri.c. `Iri.Percent` has the character classes and the percent escapes,
--   `Iri.DotSegments` the normalization of a path in place: what is written is a stack, and both
--   loops run on the length of the string as fuel, since every round reads a byte. `Iri.Parse` is
--   `wget_iri_parse`: the components are cut off the string one by one, and `Pieces`, `Schemes`, `Tails`
--   and `Authorities` below it print and read each. `Iri.Resolve` has the connection part and
--   `wget_iri_relative_to_abs`, whose reference is the bytes up to its length and those behind it; the
--   reference holds no NUL, and a base comes with a buffer. `Iri.Filename` has the
--   names that a path and a query give. iconv, libidn, `inet_pton`, `atoi` and `vsnprintf` are parameters.
-- Vector: libwget/vector.c. A vector is its elements, its allocation, its growth, its flag and its
--   comparison; each function returns the vector and the `int`. `Vector.Search` is about the two
--   binary searches, whose fuel is the length: a round that goes on at least drops one position.
--   `Vector.Flag` follows the flag `sorted` through the comparisons of an insertion.
--   `Vector.Scan`, `Vector.Swap` and `Vector.Move` are the search by a test, the exchange and
--   the move.
--   `Vector.Order` says what a comparison promises, `Vector.Lex` makes them for strings. `qsort_r`
--   is the interface `Sorter`; `Vector.Numbers` fills it with an insertion sort for the tests.
-- Cookie: libwget/cookie.c. `Cookie.Match` has the two matchings, `Cookie.Normalize` the check of a
--   received cookie, `Cookie.Store` the database on a vector, `Cookie.Request` the header, which
--   collects into a second vector with the order of `compare_cookie2`. The clock is an argument and
--   the public suffix list of libpsl a parameter of the database. A domain or path that is NULL where the
--   code dereferences it is read as empty, so nothing is said of such a cookie there.
-- Job: src/job.c. `job_create_parts` cuts a file into the parts of its metalink description and adds
--   them to a vector; what is left of the file is an integer.
--
-- Hashmap: libwget/hashmap.c. A table is a list of chains, a chain the list of its entries, and each
--   function returns the map and the `int`. `Hashmap.Chain` is about one chain, `Hashmap.Table` about
--   where entries stand, `Hashmap.Rehash` about the move of all chains, `Hashmap.Map` about what a map
--   in order reads, `Hashmap.Update` about put and remove, `Hashmap.Client` about sequences of calls.
--   The growth `off` is an integer; `float` arithmetic of the load factor is a function of the map, and
--   the one that a new map has takes three quarters exactly. Sizes of maps and vectors have no upper bound.
-- Stringmap: libwget/stringmap.c, whose two hash functions fill the interface `IsKey` of the hash map.
-- Host: src/host.c. The functions that change a host take it with the static `qsize`. `Host.Handout` has
--   the search for a free job and the release. `Host.Steps` makes them steps of all hosts, `Host.Count` and
--   `Host.Release` are about the counters of one host, `Host.Reach` about whatever can be reached.
--   `Host.Obey` is about what a parsed robots.txt leaves of a queue; where a job is dropped there,
--   `host_remove_job` takes its mutex twice, and the model is of a build without threads.
-- Robots: libwget/robots.c. `robots_parse` goes along the text line by line, with the length as fuel;
--   `Robots.Lines` prints lines, `Robots.Print` reads one back, `Robots.Rules` finds the record that counts.
-- Hsts: libwget/hsts.c. `hsts_db_add` and `hsts_db_host_match` work on a hash map from a host with its
--   port to an entry, with the time as an argument; the expiry is a sum that stays below 2^63.
--   `Hsts.Update` is about the entries that an addition leaves, `Hsts.Additions` about what it leaves by
--   its arguments, `Hsts.Match` about lookups, `Hsts.Protect` about a lookup behind an addition.
-- LinkedList: libwget/list.c, on a store that gives each node its fields. `LinkedList.Ring` says what a list
--   is, `Insert`, `Prepend` and `Remove` are about the changes, `Walk` about the two loops, whose fuel is the
--   length.
-- Netrc: libwget/netrc.c, the database of logins on the hash map; `Netrc.Lookup` is about sequences of
--   additions.
-- Utils: the tests and conversions of strings in libwget/utils.c and libwget/encoding.c.
-- Http: libwget/http_parse.c. A parser returns what it read and the rest. `Http.Directives` and
--   `Http.Links` have the single headers, `Http.Challenge` the challenges, whose parameters are a string
--   map, `Http.Date` the dates, `Http.Disposition` the file name. Loops over parameters run on the
--   length of the string as fuel, since every parameter takes a byte (`Http.Progress`); the loop over
--   challenges returns `none` when its fuel is used up, since a challenge may take none.
--   `atoi`, `atoll` and iconv are parameters; `Http.Sscanf` has the conversions of the C library that the
--   formats for dates use. `Http.RoundTrip` prints parameters to read them back, `Http.Announced` is about
--   what a header of directives announces, `Http.Date.Calendar` counts the days of the calendar one by
--   one, and `Http.Date.Print`, `Layout` and `Read` print a date and scan it.
--
-- Not modelled: sockets, TLS, HTTP transport, threads, files, the command line and output. Memory
-- allocation succeeds.
pub mod Base64
pub mod Cookie
pub mod Hashmap
pub mod Host
pub mod Hsts
pub mod Http
pub mod Iri
pub mod Job
pub mod LinkedList
pub mod Netrc
pub mod Prelude
pub mod Robots
pub mod Stringmap
pub mod Utils
pub mod Vector
