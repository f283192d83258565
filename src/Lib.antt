-- ===== src/Lib.antt =====
-- spiderframe: a web spider driven by an XML file of patterns.
--
-- A spider downloads the pages of a list of URLs, matches the patterns of its policies against
-- them, keeps what they capture as variables, and prints records made from those variables; links
-- that it finds join the list. Its parts, and the files here that model them:
--
--   Link      sf_linkmodule.c: the intrusive lists that every table is made of. A node is an address,
--             the links of all nodes are one store, and an operation is a run on that store which may
--             fault at NULL. Link/Cycle says what a circle of nodes is.
--   Hash      sf_hashmodule.c and .h: the hash table (Hash/Table) whose buckets are such circles, the
--             choice of a bucket (Hash/Key), and the hashes sf_crc (Hash/Crc) and BKDRHash (Hash/Bkdr).
--   Template  the loop over a pattern with placeholders, which sf_var.c, sf_proc.c and sf_json.c each
--             have a copy of.
--   Var       sf_var.c: the table of variables and the expansion of a pattern.
--   Json      sf_json.c: the print buffer, and the variables of a pattern as JSON.
--   Content   sf_pcre_getcontent of sf_pcre.c: a page without its tags.
--   Url       redurceurl of sf_pcre.c: a URL without /../ and /./.
--   Proc      sf_proc.c: which URLs are followed, how they are rewritten and remembered.
--   Uniq      sf_uniq.c: the strings that were seen before.
--   Confset   sf_confset.c and sf_checkpoint.c: the configuration files by name.
--   Curl      sf_curl.c: the download of a URL, in attempts, the writers of its buffers, and the line that
--             a failure prints (Curl/Format).
--   Policy    sf_pcre.h and sf_conf.h: the patterns, captures, triggers and new spiders of a policy.
--   Perform   sf_pcre_perform of sf_pcre.c: the patterns of a policy on a page. Perform/Record is what it
--             does with one match; Perform/Invariant and Perform/Kept carry a relation between the states
--             before and after through the whole of it, for Perform/Output and Perform/Unique; Perform/Once
--             is on duplicates.
--   Href      sf_pcre_get_href, gethost and gethostpath of sf_pcre.c: the links of a page.
--   Conf      sf_conf.c: the configuration from its XML file; Conf/Tail is its list macro on the links,
--             Conf/Document the variables, the files they include, and the whole; Conf/Given
--             says what the nodes of a file give the variables.
--   Main      main.c: the arguments (Main/Options), the start (Main/Start, with sf_spider_init of sf_proc.c),
--             and the loop of one spider (Main/Crawl), which uses the other parts through a record of
--             operations; Main/Grows to Main/Ends follow its rounds to
--             their end, Main/Kept to Main/Output what they print, Main/Position the lines they read.
--   Tests     runs on small inputs.
--
-- A function keeps the name of the C function, in lower case with underscores (DualLinkAppend is
-- dual_link_append). A C string is the list of its bytes before the NUL. Machine words keep their
-- wrap-around where the code relies on it. A pointer argument that is written through is returned. The
-- pool is a parameter: a new node is an address that is not NULL and that no list holds, and where the
-- code tests for memory the model does. pcre, libjson, libcurl, libxml, popen and fscanf are parameters
-- too. Locks are not modelled: each function that takes one runs as a whole. sf_json_flush is an empty
-- macro, so the JSON is the events that the printer was given; a duplicate clears the buffer only.
--
-- Loops over nodes have fuel for the count that the bucket keeps, or for any number above the nodes of
-- the circle; loops over text have fuel for its bytes; the loop of KeyToItem has 33 rounds, one more
-- than the bits of a word, since every round shifts at least one bit out. The loop over links has fuel
-- for the bytes of the page. The loops of a spider, and the files of variables that include one another,
-- have any fuel, which the results on them name.
--
-- Not modelled: the creation of the threads, and how they interleave; the opening of files and the
-- writing of logs; what a new spider takes over from the one that starts it; the file of checkpoints,
-- which the program never loads; sf_save_body, which nothing calls; the copies of nginx and libjson in
-- the repository.
pub mod Base
pub mod Link
pub mod Hash
pub mod Template
pub mod Var
pub mod Json
pub mod Url
pub mod Tests
pub mod Content
pub mod Proc
pub mod Policy
pub mod Perform
pub mod Conf
pub mod Main
pub mod Href
pub mod Curl
pub mod Confset
pub mod Uniq
