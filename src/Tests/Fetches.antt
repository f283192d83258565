-- ===== src/Tests/Fetches.antt =====
-- A download, and the pieces of a page.
use spiderframe.Base.{◌≡◌, refl, true, false, some, List, [], ◌∷◌, arith, bytes}
use spiderframe.Template.{done, overflow}
use spiderframe.Curl.{
  Opt, Step, Request, Received, print_format, exp_all, setup_steps, sf_curl_url, writer_html,
  max_html_size,
}
use spiderframe.Curl.Fetch.{Ends, accepted, one_of_three, sf_curl_url-Ends}
use spiderframe.Curl.Writer.{Took, writer_html-Took}

abbrev piece : Received
piece = record { len = 6; text = bytes "<html>" }

writer_html-Took_example : Took max_html_size piece (bytes "x") (writer_html piece (bytes "x"))
writer_html-Took_example = writer_html-Took piece (bytes "x") refl (omega arith)

abbrev request : Request
request = record {
  is_post = true;
  post_data = bytes "q=1";
  agent = bytes "spider";
  headers = bytes "A: 1" ∷ bytes "B: 2" ∷ [];
  proxy = some (bytes "http://p");
}

abbrev steps : List Step
steps =
    Step.must Opt.post
    ∷ Step.may (Opt.post_fields (bytes "q=1"))
    ∷ Step.must (Opt.user_agent (bytes "spider"))
    ∷ Step.must Opt.error_buffer
    ∷ Step.must (Opt.url (bytes "http://a"))
    ∷ Step.must Opt.no_signal
    ∷ Step.must Opt.low_speed_limit
    ∷ Step.must Opt.low_speed_time
    ∷ Step.must Opt.encoding
    ∷ Step.must Opt.header_data
    ∷ Step.must Opt.header_function
    ∷ Step.must Opt.follow_location
    ∷ Step.must Opt.max_redirs
    ∷ Step.must Opt.write_function
    ∷ Step.must Opt.write_data
    ∷ Step.slist
    ∷ Step.may (Opt.http_header (bytes "B: 2" ∷ bytes "A: 1" ∷ []))
    ∷ Step.must_free Opt.timeout
    ∷ Step.must_free Opt.connect_timeout
    ∷ Step.must_free Opt.cookie_file
    ∷ Step.must (Opt.proxy (bytes "http://p"))
    ∷ []

expanded : setup_steps done request (bytes "http://a") ≡ done steps
unfolding setup_steps exp_all
expanded = refl

-- No attempt succeeds.
sf_curl_url-Ends_example :
    Ends
      (bytes "http://a")
      (accepted (λ before o. true) [] steps)
      (one_of_three (λ n. false))
      (sf_curl_url done (λ before o. true) (λ n. false) true request (bytes "http://a"))
sf_curl_url-Ends_example =
    sf_curl_url-Ends done (λ before o. true) (λ n. false) request (bytes "http://a") steps expanded

-- A URL as a format.
one_percent : print_format (bytes "a%%2") ≡ done (bytes "a%2")
unfolding print_format
one_percent = refl

a_conversion : print_format (bytes "a%2") ≡ overflow
unfolding print_format
a_conversion = refl
