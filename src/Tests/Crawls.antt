-- ===== src/Tests/Crawls.antt =====
-- The arguments of the program, and spiders on a file of two lines.
use spiderframe.Base.{
  ap, drop, append-nil, sym, ◌++◌, zero, suc, take, inl, length, ◌≤◌, ℕ, ◌≡◌, refl, Bool, true,
  false, Option, none, some, List, [], ◌∷◌, Text, bytes, arith,
}
use spiderframe.Base.Int.{ℤ, pos, pos_part}
use spiderframe.Base.Result.{Result, ok, Soundly, undefined, out_of_fuel}
use spiderframe.Conf.{Conf}
use spiderframe.Main.Options.{config, argument_of, parse_args, default_options}
use spiderframe.Main.Arguments.{arguments, parse_args-arguments}
use spiderframe.Main.Crawl.{
  Scanned, at_eof, both, Crawl, Vars, Parts, print_failure, sf_proc_start_spider,
}
use spiderframe.Main.Grows.{IsLine, Behaves}
use spiderframe.Main.Ends.{sf_proc_start_spider_ends}
use spiderframe.Main.Restart.{Stays, Steady, start_spider_hang}
use spiderframe.Json.{Event}
use spiderframe.Json.Nested.{IsNested-nil}
use spiderframe.Main.Output.{Printed, PrintedArray, Prints, start_spider-IsNested}
use spiderframe.Main.Start.{Reads, sf_global_init}
use spiderframe.Main.Position.{scan_times, scan_times-unread}
use spiderframe.Main.Failure.{start_spider_failure}

is_file : argument_of (bytes "a.xml") ≡ config
unfolding argument_of
is_file = refl

parse_args-arguments_example :
    parse_args (arguments true 4 10 (some (bytes "p:80")) (bytes "a.xml")) default_options
    ≡ some (record {
      quiet = true;
      spider_cnt = pos 4;
      skipline = pos 10;
      proxy = some (bytes "p:80");
      conf_fn = bytes "a.xml";
    })
parse_args-arguments_example =
    parse_args-arguments true 4 10 (some (bytes "p:80")) (bytes "a.xml") (omega arith) (omega arith)
      is_file

-- The lines that are left.
abbrev File : Type 0
File = List (ℤ × Text)

abbrev read_line : File → Scanned × File
read_line [] = (at_eof, [])
read_line ((level, url) ∷ lines) = (both level url, lines)

abbrev no_suffix : Text → File → Result Text
no_suffix e s = ok []

abbrev parts : Bool → Parts (Unit {0}) File
parts got = record {
  fscanf = read_line;
  create_pool = λ s. (true, s);
  suffix = no_suffix;
  curl = λ url s. (got, s);
  get_href = λ level url c. ok c;
  perform = λ p url c. ok c;
  print = λ e s. s;
  save_chkpoint = λ line s. s;
  unparsed = λ s. [];
}

abbrev settings : ℕ → Conf (Unit {0})
settings feedback = record {
  url_level = pos 5;
  url_count = pos 2;
  interval = pos 0;
  url_feedback = pos feedback;
  method = [];
  post_data = [];
  user_agent = [];
  url_suffix = none;
  policy = [];
  range = [];
  headers = [];
}

abbrev lines : File
lines = (pos 1, bytes "http://a") ∷ (pos 1, bytes "http://b") ∷ []

abbrev crawl : Crawl File
crawl = record { line = pos 0; eof = false ∷ []; rest = lines }

abbrev vars : Vars
vars = record { level = pos 0; url = [] }

abbrev no_match : Unit {0} → Text → Option (Unit {0})
no_match re t = none

-- URLs cut off at eight bytes.
abbrev read_short : File → Scanned × File
read_short [] = (at_eof, [])
read_short ((level, url) ∷ lines) = (both level (take 8 url), lines)

length-take : (n : ℕ) (t : Text) → length (take n t) ≤ n
length-take zero t = omega arith
length-take (suc n) [] = omega arith
length-take (suc n) (c ∷ t) = omega (arith, length-take n t)

reads_lines : (s : File) → IsLine 8 (read_short s).0
reads_lines [] = tt
reads_lines ((level, url) ∷ rest) = length-take 8 url

abbrev short_parts : Parts (Unit {0}) File
short_parts = record (parts true) { fscanf = read_short }

behaves : Behaves short_parts (settings 0)
behaves = record {
  longest = 8;
  short = omega arith;
  scans = reads_lines;
  suffix_fits = λ e s. omega arith;
  fetched = inl refl;
  href_grows = λ level url c. record { lines = omega arith; spiders = refl };
  perform_grows = λ p url c. record { lines = omega arith; spiders = refl };
}

sf_proc_start_spider_ends_example :
    (c' : Crawl File) × (sf_proc_start_spider no_match short_parts (settings 0) none 0 3 vars crawl
      ≡ ok c')
sf_proc_start_spider_ends_example =
    sf_proc_start_spider_ends no_match short_parts (settings 0) behaves 3 vars crawl refl
      (omega arith)

steady : Steady (parts true)
unfolding Stays
steady = record {
  pool = λ s. refl;
  got = λ url s. refl;
  href_stays = λ level url c. (c, refl, refl);
  perform_stays = λ p url c. (c, refl, refl);
}

start_spider_hang_example :
    sf_proc_start_spider no_match (parts true) (settings 0) (some (bytes "http://a")) 1 7 vars crawl
    ≡ out_of_fuel
start_spider_hang_example =
    start_spider_hang no_match (parts true) steady (settings 0) (bytes "http://a") 1 7 vars crawl
      (omega arith) refl refl refl

start_spider_failure_example :
    sf_proc_start_spider no_match (parts false) (settings 1) none 0 1 vars crawl ≡ undefined
start_spider_failure_example =
    start_spider_failure no_match (parts false) (settings 1) 0 0 vars crawl (pos 1)
      (bytes "http://a") ((pos 1, bytes "http://b") ∷ []) refl (omega arith) refl refl refl refl

-- The state is the events that were printed; the file is empty.
abbrev printing : Parts (Unit {0}) (List Event)
printing = record {
  fscanf = λ s. (at_eof, s);
  create_pool = λ s. (true, s);
  suffix = λ e s. ok [];
  curl = λ url s. (true, s);
  get_href = λ level url c. ok c;
  perform = λ p url c. ok c;
  print = λ e s. s ++ e ∷ [];
  save_chkpoint = λ line s. s;
  unparsed = λ s. (pos 1, bytes "http://c") ∷ [];
}

abbrev all_events : List Event → List Event
all_events s = s

no_events : (c : Crawl (List Event)) → Printed all_events c c
unfolding Printed
no_events c = ([], sym (append-nil c.rest), IsNested-nil)

prints : Prints printing all_events
prints = record {
  print_adds = λ e s. refl;
  scan_keeps = λ s. refl;
  pool_keeps = λ s. refl;
  curl_keeps = λ url s. refl;
  save_keeps = λ line s. refl;
  href_prints = λ level url c. no_events c;
  perform_prints = λ p url c. no_events c;
}

abbrev silent : Crawl (List Event)
silent = record { line = pos 2; eof = false ∷ []; rest = [] }

start_spider-IsNested_example :
    Soundly
      (PrintedArray all_events silent)
      (sf_proc_start_spider no_match printing (settings 1) none 0 3 vars silent)
    × Printed all_events silent (
        print_failure no_match printing (settings 1) none 0 (bytes "url") (bytes "http://c") silent)
start_spider-IsNested_example =
    start_spider-IsNested no_match printing all_events prints (settings 1) none 0 3 vars silent
      (bytes "url") (bytes "http://c")

file_Reads : Reads read_line (λ s. s)
file_Reads = record {
  at_line = λ s level url rest h. (ap (λ f. (read_line f).0) h, ap (λ f. (read_line f).1) h);
}

abbrev watched : Parts (Unit {0}) File
watched = record (parts true) { unparsed = λ s. lines }

scan_times-unread_example :
    (v' : Vars) × (c' : Crawl File) × (scan_times no_match watched
        (settings 0)
        none
        0
        1
        vars
        (sf_global_init read_line 1 1 lines)
      ≡ ok (v', c'))
    × (c'.line ≡ pos 2)
    × (drop (pos_part c'.line) lines ≡ c'.rest)
scan_times-unread_example =
    scan_times-unread no_match watched (settings 0) none 0 (λ s. s) file_Reads lines
      (omega arith, (omega arith, tt)) 1 1 1 vars lines (omega arith) refl (λ s. refl)
