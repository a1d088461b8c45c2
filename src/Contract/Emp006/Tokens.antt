-- ===== src/Contract/Emp006/Tokens.antt =====
-- The constants of scripts/check_emp006.py: each required file with its tokens, in the order of the
-- calls of `require`.
use coupon_service.Base.{List, [], ◌∷◌, String, Dict}

abbrev pub required : Dict String (List String)
required =
    (
      "src/main/java/pl/radoslawpiatek/couponservice/geolocation/domain/ClientIpAddress.java",
      "parseLiteral" ∷ "InetAddress.getByName" ∷ "never resolves host names" ∷ [],
    )
    ∷ (
      "src/main/java/pl/radoslawpiatek/couponservice/geolocation/ports/ClientIpResolver.java",
      "HttpServletRequest" ∷ "ClientIpResolutionException" ∷ [],
    )
    ∷ (
      "src/main/java/pl/radoslawpiatek/couponservice/geolocation/ports/GeoLocationResolver.java",
      "GeolocationUnavailableException" ∷ "CountryCode" ∷ [],
    )
    ∷ (
      "src/main/java/pl/radoslawpiatek/couponservice/geolocation/adapters/ServletClientIpResolver.java",
      "request.getHeaders(\"Forwarded\")" ∷ "request.getHeaders(\"X-Forwarded-For\")"
          ∷ "forwarded.size() > 1 || xForwardedFor.size() > 1" ∷ "properties.maxHeaderLength()"
          ∷ "properties.maxForwardedHops()" ∷ "properties.mode() == ClientIpProperties.Mode.DIRECT"
          ∷ [],
    )
    ∷ (
      "src/main/java/pl/radoslawpiatek/couponservice/geolocation/adapters/ForwardedHeaderParser.java",
      "value.startsWith(\"[\")" ∷ "validPort" ∷ "maximumHops" ∷ [],
    )
    ∷ (
      "src/main/java/pl/radoslawpiatek/couponservice/geolocation/adapters/CidrBlock.java",
      "prefixLength" ∷ "candidate.length != network.length" ∷ [],
    )
    ∷ (
      "src/main/java/pl/radoslawpiatek/couponservice/geolocation/adapters/PublicIpAddressPolicy.java",
      "100.64.0.0/10" ∷ "2001:db8::/32" ∷ "fc00::/7" ∷ [],
    )
    ∷ (
      "src/main/java/pl/radoslawpiatek/couponservice/geolocation/adapters/IpWhoisGeoLocationResolver.java",
      "HttpClient" ∷ "HttpResponse.BodyHandlers.ofInputStream()" ∷ "Accept-Encoding"
          ∷ "maximumResponseBodyBytes + 1" ∷ "Content-Length" ∷ "GeolocationUnavailableException"
          ∷ "fields=success,country_code,message" ∷ [],
    )
    ∷ (
      "src/main/java/pl/radoslawpiatek/couponservice/geolocation/configuration/GeolocationConfiguration.java",
      "HttpClient.Redirect.NEVER" ∷ "profile.equals(\"local\") || profile.equals(\"test\")"
          ∷ "StubGeoLocationResolver" ∷ [],
    )
    ∷ (
      "src/main/resources/application.yml",
      "client-ip:" ∷ "mode: direct" ∷ "maximum-response-body-bytes: 16384" ∷ [],
    )
    ∷ ("src/main/resources/application-local.yml", "provider: stub" ∷ "stub-country: PL" ∷ [])
    ∷ (
      "src/test/java/pl/radoslawpiatek/couponservice/geolocation/adapters/ServletClientIpResolverTest.java",
      "failsClosedForMultiplePhysicalHeaderLinesBeforePrecedence"
          ∷ "directModeIgnoresSpoofedForwardingHeaders"
          ∷ "supportsBracketedIpv6WithValidatedPortInForwarded"
          ∷ "forwardedWinsOverConflictingXffAndNeverFallsBackAfterError" ∷ [],
    )
    ∷ (
      "src/test/java/pl/radoslawpiatek/couponservice/geolocation/adapters/IpWhoisGeoLocationResolverTest.java",
      "WireMockServer" ∷ "redirectDoesNotFollowLocationAndMakesExactlyOneRequest"
          ∷ "rejectsOversizedDeclaredAndStreamingBodiesWithoutLeakage"
          ∷ "acceptsExactlySixteenKiBBeforeJsonParsing"
          ∷ "responseTimeoutDoesNotRetryOrRevealAddress" ∷ [],
    )
    ∷ (
      "src/test/java/pl/radoslawpiatek/couponservice/geolocation/configuration/GeolocationConfigurationTest.java",
      "stubRequiresLocalOrTestProfile" ∷ "ipwhoisStartsWithoutPerformingAProviderRequest" ∷ [],
    )
    ∷ (
      "scripts/docker_smoke.sh",
      "APP_PORT=\"${APP_PORT:-0}\""
          ∷ "COMPOSE_PROJECT_NAME=\"${COMPOSE_PROJECT_NAME:-coupon-service-verify-$$}\""
          ∷ "compose -p \"$COMPOSE_PROJECT_NAME\" -f docker-compose.yml port app 8080"
          ∷ "base_url=\"http://127.0.0.1:${smoke_port}\"" ∷ "trap cleanup EXIT"
          ∷ "down --volumes --remove-orphans" ∷ [],
    )
    ∷ []

abbrev pub pom_tokens : List String
pom_tokens =
    "<wiremock.version>3.13.2</wiremock.version>" ∷ "<artifactId>wiremock-standalone</artifactId>"
    ∷ []

abbrev pub started_states : List String
started_states = "IMPLEMENTED" ∷ "IN_PROGRESS" ∷ "DONE_AND_VERIFIED" ∷ []
