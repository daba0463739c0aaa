-- ===== src/Mattermost/Client/Posts.antt =====
-- What a post of the client has come to, told by what the network has been asked and has answered.
use sexton.Common.{◌≡◌, refl, false, none, some, [], ◌∷◌, leb, arith}
use sexton.Common.Result.{Result, ok, err}
use sexton.Common.Text.{Text, codes}
use sexton.Mattermost.Client.{
  Client, Library, HttpRequest, HttpResponse, build_api_url, post_message, read_posted, post_to,
}

-- The request of a post: `channel_id` and `message` as a JSON object, with the client's token.
abbrev pub post_request : {V : Type 0} → Library V → Client → Text → Text → Text → HttpRequest
post_request lib c url channel_id text = record {
  method = codes "POST";
  url = url;
  token = c.token;
  body = some (lib.encode_object ((codes "channel_id", channel_id) ∷ (codes "message", text) ∷ []));
}

-- The network has been sent the post of a text to a channel, which takes it from `v` to `v'`, and has
-- answered with a status that is no failure.
pub record IsPosted {V : Type 0} (lib : Library V) (c : Client) (channel_id text : Text) (v v' : V)
    : Type 0 where
  pub url : Text
  pub response : HttpResponse
  pub built : build_api_url lib c (codes "/api/v4/posts") ≡ ok url
  pub answered : (lib.send (post_request lib c url channel_id text) v).0 ≡ ok response
  pub left : (lib.send (post_request lib c url channel_id text) v).1 ≡ v'
  pub accepted : leb 300 response.status ≡ false

module _ {V : Type 0} (lib : Library V) where
  read_posted-ok :
      (x : Result Text HttpResponse × V)
      → (read_posted lib x).0 ≡ none
      → (r : HttpResponse) × (x.0 ≡ ok r)
        × (leb 300 r.status ≡ false)
        × (x.1 ≡ (read_posted lib x).1)
  unfolding read_posted
  read_posted-ok (err e, v) h = cc
  read_posted-ok (ok r, v) h = (r, refl, ground arith, refl)

  post_to-IsPosted :
      (c : Client) (channel_id text : Text) (u : Result Text Text) (v : V)
      → build_api_url lib c (codes "/api/v4/posts") ≡ u
      → (post_to lib c channel_id text u v).0 ≡ none
      → IsPosted lib c channel_id text v (post_to lib c channel_id text u v).1
  unfolding post_to
  post_to-IsPosted c channel_id text (err e) v b h = cc
  post_to-IsPosted c channel_id text (ok url) v b h =
      let (r, answered, accepted, left) =
        read_posted-ok (lib.send (post_request lib c url channel_id text) v) h in
      record {
        url = url;
        response = r;
        built = b;
        answered = answered;
        left = left;
        accepted = accepted;
      }

  -- A post without an error has been made.
  pub post_message-IsPosted :
      (c : Client) (channel_id text : Text) (v : V)
      → (post_message lib c channel_id text v).0 ≡ none
      → IsPosted lib c channel_id text v (post_message lib c channel_id text v).1
  unfolding post_message
  post_message-IsPosted c channel_id text v h =
      post_to-IsPosted c channel_id text (build_api_url lib c (codes "/api/v4/posts")) v refl h
